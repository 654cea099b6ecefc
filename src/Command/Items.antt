-- ===== src/Command/Items.antt =====
-- An independent description of what the redirection parsers of command.c compute: a command is a
-- sequence of arguments and redirections in any order.
use c_shell.Base.{
  ◌≡◌, refl, ap, ◌∙◌, Bool, true, false, ◌||◌, List, [], ◌∷◌, ◌++◌, some, append_assoc, append-nil,
  append_two, Bytes, codes, str_eq, arith,
}
use c_shell.Lexer.{Token, TokenType, op_lt, op_gt, op_gtgt, word}
use c_shell.Command.{
  OutputFile, input_loop, parse_input_redirect, is_output, output_loop, parse_output_redirection,
  stage_loop, keep_stage, parse_pipeline_stage, parsed, second_pass, parse_redirects,
}

-- An argument, `< file`, or `> file` (`>> file` if it appends).
pub data Item : Type 0 where
  arg : Bytes → Item
  input : Bytes → Item
  output : Bool → Bytes → Item

abbrev pub token : TokenType → Bytes → Token
token k v = record { kind = k; value = v }

abbrev pub redirect_token : Bool → Token
redirect_token true = token op_gtgt (codes ">>")
redirect_token false = token op_gt (codes ">")

abbrev pub tokens_of : List Item → List Token
tokens_of [] = []
tokens_of (arg v ∷ is) = token word v ∷ tokens_of is
tokens_of (input v ∷ is) = token op_lt (codes "<") ∷ token word v ∷ tokens_of is
tokens_of (output a v ∷ is) = redirect_token a ∷ token word v ∷ tokens_of is

abbrev pub args : List Item → List Bytes
args [] = []
args (arg v ∷ is) = v ∷ args is
args (input v ∷ is) = args is
args (output a v ∷ is) = args is

abbrev pub inputs : List Item → List Bytes
inputs [] = []
inputs (arg v ∷ is) = inputs is
inputs (input v ∷ is) = v ∷ inputs is
inputs (output a v ∷ is) = inputs is

abbrev pub outputs : List Item → List OutputFile
outputs [] = []
outputs (arg v ∷ is) = outputs is
outputs (input v ∷ is) = outputs is
outputs (output a v ∷ is) = record { name = v; append = a } ∷ outputs is

-- The first pass takes this text for a word: it is none of `<`, `;` and `&`.
abbrev pub PassesInput : Bytes → Type 0
PassesInput v =
    (str_eq v (codes "<") ≡ false) × ((str_eq v (codes ";") || str_eq v (codes "&")) ≡ false)

-- No word has the text of an operator that the parsers compare it with. (The file of `<` is taken
-- as it stands, and so is that of `>` by the second pass.)
abbrev pub IsPlain : List Item → Type 0
IsPlain [] = Unit
IsPlain (arg v ∷ is) = PassesInput v × (is_output v ≡ false) × IsPlain is
IsPlain (input v ∷ is) = IsPlain is
IsPlain (output a v ∷ is) = PassesInput v × IsPlain is

-- The texts that the first pass leaves to the second.
abbrev pub raw_args : List Item → List Bytes
raw_args [] = []
raw_args (arg v ∷ is) = v ∷ raw_args is
raw_args (input v ∷ is) = raw_args is
raw_args (output a v ∷ is) = (redirect_token a).value ∷ v ∷ raw_args is

stage_loop_word :
    (raw files : List Bytes) (t : Token) (ts : List Token)
    → str_eq t.value (codes "<") ≡ false
    → stage_loop raw files (t ∷ ts) ≡ stage_loop (raw ++ t.value ∷ []) files ts
unfolding stage_loop
stage_loop_word raw files t [] h = ground arith
stage_loop_word raw files t (u ∷ us) h = ground arith

stage_loop_input :
    (raw files : List Bytes) (v : Bytes) (ts : List Token)
    → stage_loop raw files (token op_lt (codes "<") ∷ token word v ∷ ts)
      ≡ stage_loop raw (files ++ v ∷ []) ts
unfolding stage_loop str_eq
stage_loop_input raw files v ts = refl

redirect_not_input : (a : Bool) → str_eq (redirect_token a).value (codes "<") ≡ false
unfolding str_eq
redirect_not_input true = refl
redirect_not_input false = refl

stage_loop-tokens_of :
    (raw files : List Bytes) (is : List Item) (rest : List Token)
    → IsPlain is
    → stage_loop raw files (tokens_of is ++ rest)
      ≡ stage_loop (raw ++ raw_args is) (files ++ inputs is) rest
stage_loop-tokens_of raw files [] rest h = simp append-nil
stage_loop-tokens_of raw files (arg v ∷ is) rest h =
    stage_loop_word raw files (token word v) _ h.0.0
    ∙ rw append_assoc at (stage_loop-tokens_of (raw ++ v ∷ []) files is rest h.2)
stage_loop-tokens_of raw files (input v ∷ is) rest h =
    stage_loop_input raw files v _
    ∙ rw append_assoc at (stage_loop-tokens_of raw (files ++ v ∷ []) is rest h)
stage_loop-tokens_of raw files (output a v ∷ is) rest h =
    stage_loop_word raw files (redirect_token a) _ (redirect_not_input a)
    ∙ stage_loop_word (raw ++ (redirect_token a).value ∷ []) files (token word v) _ h.0.0
    ∙ stage_loop-tokens_of ((raw ++ (redirect_token a).value ∷ []) ++ v ∷ []) files is rest h.1
    ∙ ap (λ l. stage_loop l (files ++ inputs is) rest)
        (append_two raw (redirect_token a).value v (raw_args is))

output_loop_word :
    (kept : List Bytes) (files : List OutputFile) (a : Bytes) (rest : List Bytes)
    → is_output a ≡ false
    → output_loop kept files (a ∷ rest) ≡ output_loop (kept ++ a ∷ []) files rest
unfolding output_loop
output_loop_word kept files a [] h = ground arith
output_loop_word kept files a (b ∷ rest) h = ground arith

output_loop_file :
    (kept : List Bytes) (files : List OutputFile) (a : Bool) (v : Bytes) (rest : List Bytes)
    → output_loop kept files ((redirect_token a).value ∷ v ∷ rest)
      ≡ output_loop kept (files ++ record { name = v; append = a } ∷ []) rest
unfolding output_loop is_output str_eq
output_loop_file kept files true v rest = refl
output_loop_file kept files false v rest = refl

output_loop_end :
    (kept : List Bytes) (files : List OutputFile) → output_loop kept files [] ≡ some (kept, files)
unfolding output_loop
output_loop_end kept files = refl

output_loop-raw_args :
    (kept : List Bytes) (files : List OutputFile) (is : List Item)
    → IsPlain is
    → output_loop kept files (raw_args is) ≡ some (kept ++ args is, files ++ outputs is)
output_loop-raw_args kept files [] h = output_loop_end kept files ∙ simp append-nil
output_loop-raw_args kept files (arg v ∷ is) h =
    output_loop_word kept files v _ h.1
    ∙ rw append_assoc at (output_loop-raw_args (kept ++ v ∷ []) files is h.2)
output_loop-raw_args kept files (input v ∷ is) h = output_loop-raw_args kept files is h
output_loop-raw_args kept files (output a v ∷ is) h =
    output_loop_file kept files a v _
    ∙ rw append_assoc at
        (output_loop-raw_args kept (files ++ record { name = v; append = a } ∷ []) is h.1)

-- The same for the loop of `parse_input_redirect`.
pub input_loop_word :
    (argv files : List Bytes) (t : Token) (ts : List Token)
    → PassesInput t.value
    → input_loop argv files (t ∷ ts) ≡ input_loop (argv ++ t.value ∷ []) files ts
unfolding input_loop
input_loop_word argv files t [] h = ground arith
input_loop_word argv files t (u ∷ us) h = ground arith

input_loop_input :
    (argv files : List Bytes) (v : Bytes) (ts : List Token)
    → input_loop argv files (token op_lt (codes "<") ∷ token word v ∷ ts)
      ≡ input_loop argv (files ++ v ∷ []) ts
unfolding input_loop str_eq
input_loop_input argv files v ts = refl

pub redirect-PassesInput : (a : Bool) → PassesInput (redirect_token a).value
unfolding str_eq
redirect-PassesInput true = (refl, refl)
redirect-PassesInput false = (refl, refl)

pub input_loop-tokens_of :
    (argv files : List Bytes) (is : List Item) (rest : List Token)
    → IsPlain is
    → input_loop argv files (tokens_of is ++ rest)
      ≡ input_loop (argv ++ raw_args is) (files ++ inputs is) rest
input_loop-tokens_of argv files [] rest h = simp append-nil
input_loop-tokens_of argv files (arg v ∷ is) rest h =
    input_loop_word argv files (token word v) _ h.0
    ∙ rw append_assoc at (input_loop-tokens_of (argv ++ v ∷ []) files is rest h.2)
input_loop-tokens_of argv files (input v ∷ is) rest h =
    input_loop_input argv files v _
    ∙ rw append_assoc at (input_loop-tokens_of argv (files ++ v ∷ []) is rest h)
input_loop-tokens_of argv files (output a v ∷ is) rest h =
    input_loop_word argv files (redirect_token a) _ (redirect-PassesInput a)
    ∙ input_loop_word (argv ++ (redirect_token a).value ∷ []) files (token word v) _ h.0
    ∙ input_loop-tokens_of ((argv ++ (redirect_token a).value ∷ []) ++ v ∷ []) files is rest h.1
    ∙ ap (λ l. input_loop l (files ++ inputs is) rest)
        (append_two argv (redirect_token a).value v (raw_args is))

-- The command ends here: the line does, or a token has the text `;` or `&`.
abbrev pub EndsText : List Token → Type 0
EndsText [] = Unit
EndsText (t ∷ ts) = (str_eq t.value (codes ";") || str_eq t.value (codes "&")) ≡ true

input_loop_stop :
    (argv files : List Bytes) (ts : List Token)
    → EndsText ts
    → input_loop argv files ts ≡ some (argv, files)
unfolding input_loop
input_loop_stop argv files [] h = refl
input_loop_stop argv files (t ∷ []) h = rw h
input_loop_stop argv files (t ∷ u ∷ us) h = rw (h, input_loop)

-- `parse_input_redirect` and then `parse_output_redirection`, as `exec_command` and
-- `exec_background_command` run them: the arguments, input files and output files of the first
-- command of a sequence are those written, whatever follows its `;` or `&`.
pub parse_redirects-tokens_of :
    (is : List Item) (rest : List Token)
    → IsPlain is
    → EndsText rest
    → parse_redirects (tokens_of is ++ rest) ≡ parsed (args is) (inputs is) (outputs is)
unfolding parse_redirects parse_input_redirect parse_output_redirection
parse_redirects-tokens_of is rest h e =
    rw
      (
        input_loop-tokens_of [] [] is rest h,
        input_loop_stop (raw_args is) (inputs is) rest e,
        output_loop-raw_args [] [] is h,
        second_pass,
      )
      refl

stage_loop_end : (raw files : List Bytes) → stage_loop raw files [] ≡ some (raw, files)
unfolding stage_loop
stage_loop_end raw files = refl

-- A stage that is written as arguments and redirections in any order, none of its words having the
-- text of an operator, is parsed to its arguments, its input files and its output files, each in
-- the order written; it is refused exactly when it has no argument.
pub parse_pipeline_stage-tokens_of :
    (is : List Item)
    → IsPlain is
    → parse_pipeline_stage (tokens_of is) ≡ keep_stage (args is) (inputs is) (outputs is)
unfolding parse_pipeline_stage parse_output_redirection
parse_pipeline_stage-tokens_of is h =
    let all = rw append-nil at (stage_loop-tokens_of [] [] is [] h) in
    rw (all, stage_loop_end (raw_args is) (inputs is), output_loop-raw_args [] [] is h) refl
