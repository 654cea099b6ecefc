-- ===== src/Sequence/Runs.antt =====
-- `exec_command` (c-shell/src/command.c) and the branch at `&` of `sequence_command` on a single job.
use c_shell.Base.{
  ℕ, ◌≡◌, refl, ap, ◌∙◌, true, false, List, [], ◌∷◌, ◌++◌, append_assoc, codes, str_eq, Option,
  none, some, Bytes,
}
use c_shell.Lexer.{Token, op_pipe}
use c_shell.Command.{parsed, has_pipeline}
use c_shell.Command.Items.{
  Item, arg, input, output, token, tokens_of, args, inputs, outputs, EndsText,
  parse_redirects-tokens_of,
}
use c_shell.Command.Pipes.{
  HasArgument, IsStage, AllStages, pipe_tokens, EndsKind, parse_pipeline-pipe_tokens,
}
use c_shell.Command.Resolve.{System}
use c_shell.Command.Exec.{
  run_stage, exec_parsed, exec_command, background_stage, background_parsed,
  exec_background_command,
}
use c_shell.Sequence.{start_background}
use c_shell.Sequence.Programs.{program, name_of, look_up-program}
use c_shell.Sequence.Script.{
  semi_token, amp_token, foreground_single, background_single, foreground_command,
  background_command, foreground_of, background_of,
}

has_pipeline-tokens_of :
    (is : List Item) (rest : List Token) → has_pipeline (tokens_of is ++ rest) ≡ has_pipeline rest
unfolding has_pipeline
has_pipeline-tokens_of [] rest = refl
has_pipeline-tokens_of (arg v ∷ is) rest = has_pipeline-tokens_of is rest
has_pipeline-tokens_of (input v ∷ is) rest = has_pipeline-tokens_of is rest
has_pipeline-tokens_of (output true v ∷ is) rest = has_pipeline-tokens_of is rest
has_pipeline-tokens_of (output false v ∷ is) rest = has_pipeline-tokens_of is rest

has_pipeline_end : (rest : List Token) → EndsKind rest → has_pipeline rest ≡ false
unfolding has_pipeline
has_pipeline_end [] e = refl
has_pipeline_end (t ∷ ts) e = rw e

-- The end of a command, for the parsers that look at kinds and for those that look at texts.
pub record Ends (rest : List Token) : Type 0 where
  pub kind : EndsKind rest
  pub text : EndsText rest

pub Ends-nil : Ends []
Ends-nil = record { kind = tt; text = tt }

pub Ends-semi : (ts : List Token) → Ends (semi_token ∷ ts)
unfolding str_eq
Ends-semi ts = record { kind = refl; text = refl }

pub Ends-amp : (ts : List Token) → Ends (amp_token ∷ ts)
unfolding str_eq
Ends-amp ts = record { kind = refl; text = refl }

has_pipeline-pipe_tokens :
    (p q : List Item) (ps : List (List Item)) (rest : List Token)
    → has_pipeline (pipe_tokens p (q ∷ ps) ++ rest) ≡ true
has_pipeline-pipe_tokens p q ps rest =
    ap has_pipeline (append_assoc (tokens_of p) (token op_pipe (codes "|") ∷ pipe_tokens q ps) rest)
    ∙ has_pipeline-tokens_of p _
    ∙ (unfold has_pipeline in refl)

run_stage-single :
    (o : Option Bytes) (name : Bytes) (rest : List Bytes) (p : List Item)
    → run_stage (o, name) rest (inputs p) (outputs p) ≡ foreground_single o name rest p
run_stage-single none name rest p = refl
run_stage-single (some path) name rest p = refl

background_stage-single :
    (o : Option Bytes) (name : Bytes) (rest : List Bytes) (p : List Item)
    → (background_stage (o, name) rest (inputs p) (outputs p)).1 ≡ background_single o name rest p
background_stage-single none name rest p = refl
background_stage-single (some path) name rest p = refl

-- A single command, parsed.
exec_parsed-foreground :
    (sys : System) (p : List Item) (as_ : List Bytes)
    → HasArgument as_
    → exec_parsed sys (parsed as_ (inputs p) (outputs p)) ≡ foreground_command sys as_ p
exec_parsed-foreground sys p [] h = absurd h
exec_parsed-foreground sys p (command ∷ rest) h =
    ap (λ f. run_stage f rest (inputs p) (outputs p)) (look_up-program sys command)
    ∙ run_stage-single (program sys command) (name_of command) rest p

background_parsed-background :
    (sys : System) (p : List Item) (as_ : List Bytes)
    → HasArgument as_
    → (background_parsed sys (parsed as_ (inputs p) (outputs p))).1 ≡ background_command sys as_ p
background_parsed-background sys p [] h = absurd h
background_parsed-background sys p (command ∷ rest) h =
    ap (λ f. (background_stage f rest (inputs p) (outputs p)).1) (look_up-program sys command)
    ∙ background_stage-single (program sys command) (name_of command) rest p

module _ (sys : System) (room : (n : ℕ) → sys.calloc_ok n ≡ true) where
  pub exec_command-job :
      (p : List Item) (ps : List (List Item)) (rest : List Token)
      → IsStage p
      → AllStages ps
      → Ends rest
      → exec_command sys (pipe_tokens p ps ++ rest) ≡ foreground_of ps sys p
  unfolding exec_command
  exec_command-job p [] rest s all e =
      rw
        (
          has_pipeline-tokens_of p rest,
          has_pipeline_end rest e.kind,
          parse_redirects-tokens_of p rest s.plain e.text,
        )
        (exec_parsed-foreground sys p (args p) s.runs)
  exec_command-job p (q ∷ ps) rest s all e =
      rw
        (
          has_pipeline-pipe_tokens p q ps rest,
          parse_pipeline-pipe_tokens sys.calloc_ok p (q ∷ ps) rest s all e.kind (room _),
        )
        refl

  pub start_background-job :
      (p : List Item) (ps : List (List Item)) (rest : List Token)
      → IsStage p
      → AllStages ps
      → Ends rest
      → start_background sys (pipe_tokens p ps ++ rest) ≡ background_of ps sys p
  unfolding start_background exec_background_command
  start_background-job p [] rest s all e =
      rw
        (
          has_pipeline-tokens_of p rest,
          has_pipeline_end rest e.kind,
          parse_redirects-tokens_of p rest s.plain e.text,
        )
        (background_parsed-background sys p (args p) s.runs)
  start_background-job p (q ∷ ps) rest s all e =
      rw
        (
          has_pipeline-pipe_tokens p q ps rest,
          parse_pipeline-pipe_tokens sys.calloc_ok p (q ∷ ps) rest s all e.kind (room _),
        )
        refl
