-- ===== src/Sequence/Script.antt =====
-- Lines of jobs with `;` and `&` between them, and what running them in order gives, the description
-- of `sequence_command` (c-shell/src/sequence.c).
use c_shell.Base.{List, [], ◌∷◌, ◌++◌, false, Option, none, some, length, Bytes, codes}
use c_shell.Lexer.{Token, op_semi, op_amp}
use c_shell.Command.Items.{Item, token, args, inputs, outputs}
use c_shell.Command.Pipes.{IsStage, AllStages, pipe_tokens}
use c_shell.Command.Resolve.{System}
use c_shell.Command.{PipelineStage}
use c_shell.Command.Exec.{
  Launch, invalid_syntax, not_found, run_pipeline, run_pipeline_background, run_background, Ran,
}
use c_shell.Sequence.Programs.{program, name_of}
use c_shell.Sequence.{World, after_command}

-- A command, or a pipeline of two or more.
pub record Job : Type 0 where
  pub first : List Item
  pub others : List (List Item)

pub record IsJob (j : Job) : Type 0 where
  pub first_runs : IsStage j.first
  pub others_run : AllStages j.others

-- A line: its last job, to the end or before a last `&`, or a job and the line behind its separator.
pub data Script : Type 0 where
  last last_amp : Job → Script
  semi amp : Job → Script → Script

abbrev pub job_tokens : Job → List Token
job_tokens j = pipe_tokens j.first j.others

abbrev pub semi_token : Token
semi_token = token op_semi (codes ";")

abbrev pub amp_token : Token
amp_token = token op_amp (codes "&")

abbrev pub script_tokens : Script → List Token
script_tokens (last j) = job_tokens j
script_tokens (last_amp j) = job_tokens j ++ amp_token ∷ []
script_tokens (semi j s) = job_tokens j ++ semi_token ∷ script_tokens s
script_tokens (amp j s) = job_tokens j ++ amp_token ∷ script_tokens s

abbrev pub IsScript : Script → Type 0
IsScript (last j) = IsJob j
IsScript (last_amp j) = IsJob j
IsScript (semi j s) = IsJob j × IsScript s
IsScript (amp j s) = IsJob j × IsScript s

-- A stage with these arguments and files, for which nothing is open or started.
abbrev pub new_stage : List Bytes → List Item → PipelineStage
new_stage argv is = record {
  argv = argv;
  input_files = inputs is;
  output_files = outputs is;
  output_fds = [];
  output_pipe = none;
  output_writer = none;
  input_fd = none;
  input_writer = none;
  setup_failed = false;
}

abbrev pub new_stages : List (List Item) → List PipelineStage
new_stages [] = []
new_stages (is ∷ iss) = new_stage (args is) is ∷ new_stages iss

-- A job in the foreground: a single command is started as a pipeline of one stage if its program is
-- found, and a pipeline is started whole.
abbrev pub foreground_single : Option Bytes → Bytes → List Bytes → List Item → Ran
foreground_single none name rest p = (1, not_found name ∷ [])
foreground_single (some path) name rest p =
    (0, run_pipeline (new_stage (name ∷ rest) p ∷ []) 1 ∷ [])

abbrev pub background_single : Option Bytes → Bytes → List Bytes → List Item → List Launch
background_single none name rest p = not_found name ∷ []
background_single (some path) name rest p =
    run_background path (name ∷ rest) (inputs p) (outputs p) ∷ []

abbrev pub foreground_command : System → List Bytes → List Item → Ran
foreground_command sys [] p = (0, [])
foreground_command sys (command ∷ rest) p =
    foreground_single (program sys command) (name_of command) rest p

abbrev pub background_command : System → List Bytes → List Item → List Launch
background_command sys [] p = invalid_syntax ∷ []
background_command sys (command ∷ rest) p =
    background_single (program sys command) (name_of command) rest p

abbrev pub foreground_of : List (List Item) → System → List Item → Ran
foreground_of [] sys p = foreground_command sys (args p) p
foreground_of (q ∷ ps) sys p =
    (0, run_pipeline (new_stages (p ∷ q ∷ ps)) (length (p ∷ q ∷ ps)) ∷ [])

abbrev pub background_of : List (List Item) → System → List Item → List Launch
background_of [] sys p = background_command sys (args p) p
background_of (q ∷ ps) sys p =
    run_pipeline_background (new_stages (p ∷ q ∷ ps)) (length (p ∷ q ∷ ps)) ∷ []

abbrev pub foreground : System → Job → Ran
foreground sys j = foreground_of j.others sys j.first

abbrev pub background : System → Job → List Launch
background sys j = background_of j.others sys j.first

-- The jobs of a line in their order: one before `&` starts and the line goes on; one before `;` is
-- run, and the line goes on if its code is 0.
abbrev pub run_script : World → Script → List Launch → Ran
run_script world (last j) log = after_command (foreground (world log) j) log (λ log'. (0, log'))
run_script world (last_amp j) log = (0, log ++ background (world log) j)
run_script world (semi j s) log = after_command (foreground (world log) j) log (run_script world s)
run_script world (amp j s) log = run_script world s (log ++ background (world log) j)
