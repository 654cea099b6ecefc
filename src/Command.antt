-- ===== src/Command.antt =====
-- The command lines of c-shell/src/command.c and include/command.h: how tokens become the
-- arguments and redirections of a stage. The children prove what the routines compute.
pub mod Items
pub mod Pipes
pub mod Resolve
pub mod Exec
pub mod Quoted
use c_shell.Base.{
  ◌>>=◌, ℕ, suc, Bool, true, false, not, ◌&&◌, ◌||◌, List, [], ◌∷◌, ◌++◌, Option, some, none,
  length, if◌then◌else◌, Bytes, codes, str_eq, ltb,
}
use c_shell.Lexer.{Token, TokenType, op_pipe, op_amp, op_semi, word}

-- `struct output_file`
pub record OutputFile : Type 0 where
  pub name : Bytes
  pub append : Bool

-- `struct pipeline_stage`; the counts are the lengths of the lists, and a descriptor or process
-- id that is -1 is `none`.
pub record PipelineStage : Type 0 where
  pub argv : List Bytes
  pub input_files : List Bytes
  pub output_files : List OutputFile
  pub output_fds : List ℕ
  pub output_pipe : Option (ℕ × ℕ)
  pub output_writer : Option ℕ
  pub input_fd : Option ℕ
  pub input_writer : Option ℕ
  pub setup_failed : Bool

abbrev pub is_word : TokenType → Bool
is_word word = true
is_word _ = false

-- `type == OP_SEMI || type == OP_AMP`, the end of a command in the loops over tokens.
abbrev pub ends_command : TokenType → Bool
ends_command op_semi = true
ends_command op_amp = true
ends_command _ = false

abbrev pub is_pipe : TokenType → Bool
is_pipe op_pipe = true
is_pipe _ = false

-- The loop of `parse_input_redirect` with the arguments and files found so far; `none` is the
-- return of 0.
unfoldable pub input_loop : List Bytes → List Bytes → List Token → Option (List Bytes × List Bytes)
input_loop argv files [] = some (argv, files)
input_loop argv files (t ∷ []) =
    if str_eq t.value (codes ";") || str_eq t.value (codes "&")
    then some (argv, files)
    else if str_eq t.value (codes "<")
    then none
    else some (argv ++ t.value ∷ [], files)
input_loop argv files (t ∷ u ∷ us) =
    elim (str_eq t.value (codes ";") || str_eq t.value (codes "&")) [
      | true ↦ some (argv, files)
      | false ↦ elim (str_eq t.value (codes "<")) [
        | true ↦ elim (is_word u.kind) [
          | true ↦ input_loop argv (files ++ u.value ∷ []) us
          | false ↦ none
        ]
        | false ↦ input_loop (argv ++ t.value ∷ []) files (u ∷ us)
      ]
    ]

unfoldable pub parse_input_redirect : List Token → Option (List Bytes × List Bytes)
parse_input_redirect ts = input_loop [] [] ts

unfoldable pub is_output : Bytes → Bool
is_output a = str_eq a (codes ">") || str_eq a (codes ">>")

-- The loop of `parse_output_redirection`: the arguments kept and the files found so far.
unfoldable pub output_loop :
    List Bytes → List OutputFile → List Bytes → Option (List Bytes × List OutputFile)
output_loop kept files [] = some (kept, files)
output_loop kept files (a ∷ []) = if is_output a then none else some (kept ++ a ∷ [], files)
output_loop kept files (a ∷ b ∷ rest) = elim (is_output a) [
  | true ↦ output_loop kept (files ++ record { name = b; append = str_eq a (codes ">>") } ∷ []) rest
  | false ↦ output_loop (kept ++ a ∷ []) files (b ∷ rest)
]

unfoldable pub parse_output_redirection : List Bytes → Option (List Bytes × List OutputFile)
parse_output_redirection argv = output_loop [] [] argv

-- What the two passes give `exec_command` and `exec_background_command`, or which of them failed.
pub data Parsed : Type 0 where
  bad_input bad_output : Parsed
  parsed : List Bytes → List Bytes → List OutputFile → Parsed

abbrev pub second_pass : Option (List Bytes × List Bytes) → Parsed
second_pass none = bad_input
second_pass (some raw) = elim (parse_output_redirection raw.0) [
  | none ↦ bad_output
  | some out ↦ parsed out.0 raw.1 out.1
]

unfoldable pub parse_redirects : List Token → Parsed
parse_redirects ts = second_pass (parse_input_redirect ts)

-- The first loop of `parse_pipeline_stage`, over the tokens from `start` up to `end`.
unfoldable pub stage_loop : List Bytes → List Bytes → List Token → Option (List Bytes × List Bytes)
stage_loop raw files [] = some (raw, files)
stage_loop raw files (t ∷ []) =
    if str_eq t.value (codes "<") then none else some (raw ++ t.value ∷ [], files)
stage_loop raw files (t ∷ u ∷ us) = elim (str_eq t.value (codes "<")) [
  | true ↦ elim (is_word u.kind) [ true ↦ stage_loop raw (files ++ u.value ∷ []) us | false ↦ none ]
  | false ↦ stage_loop (raw ++ t.value ∷ []) files (u ∷ us)
]

-- A stage before anything is opened or started for it.
abbrev pub fresh_stage : List Bytes → List Bytes → List OutputFile → PipelineStage
fresh_stage argv inputs outputs = record {
  argv = argv;
  input_files = inputs;
  output_files = outputs;
  output_fds = [];
  output_pipe = none;
  output_writer = none;
  input_fd = none;
  input_writer = none;
  setup_failed = false;
}

-- `return raw_argc > 0`
abbrev pub keep_stage : List Bytes → List Bytes → List OutputFile → Option PipelineStage
keep_stage [] inputs outputs = none
keep_stage (a ∷ argv) inputs outputs = some (fresh_stage (a ∷ argv) inputs outputs)

unfoldable pub parse_pipeline_stage : List Token → Option PipelineStage
parse_pipeline_stage ts = do
  raw ← stage_loop [] [] ts
  out ← parse_output_redirection raw.0
  keep_stage out.0 raw.1 out.1

unfoldable pub has_pipeline : List Token → Bool
has_pipeline [] = false
has_pipeline (t ∷ ts) =
    if ends_command t.kind then false else if is_pipe t.kind then true else has_pipeline ts

-- The first loop of `parse_pipeline`, at `count`.
unfoldable pub count_stages : ℕ → List Token → ℕ
count_stages count [] = count
count_stages count (t ∷ ts) =
    if ends_command t.kind
    then count
    else count_stages (if is_pipe t.kind then suc count else count) ts

-- The second loop: `start` up to `cursor` is `seg`, the stages parsed so far are `done`.
unfoldable pub pipeline_loop :
    List PipelineStage → List Token → List Token → Option (List PipelineStage)
pipeline_loop done seg [] = do s ← parse_pipeline_stage seg; some (done ++ s ∷ [])
pipeline_loop done seg (t ∷ ts) = elim (ends_command t.kind) [
  | true ↦ do s ← parse_pipeline_stage seg; some (done ++ s ∷ [])
  | false ↦ elim (is_pipe t.kind) [
    | true ↦ do s ← parse_pipeline_stage seg; pipeline_loop (done ++ s ∷ []) [] ts
    | false ↦ pipeline_loop done (seg ++ t ∷ []) ts
  ]
]

-- `calloc_ok n` tells whether `calloc` finds room for `n` stages. The value is `*stages` with
-- `*stage_count`.
unfoldable pub parse_pipeline : (ℕ → Bool) → List Token → Option (List PipelineStage × ℕ)
parse_pipeline calloc_ok ts =
    if calloc_ok (count_stages 1 ts)
    then (do stages ← pipeline_loop [] [] ts; some (stages, count_stages 1 ts))
    else none
