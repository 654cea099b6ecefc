-- ===== src/Command/Exec.antt =====
-- `exec_command` and `exec_background_command` of c-shell/src/command.c, up to the calls that start
-- processes, which are recorded in order.
use c_shell.Base.{ℕ, List, [], ◌∷◌, Option, some, none, ◌==◌, if◌then◌else◌, Bytes}
use c_shell.Lexer.{Token}
use c_shell.Command.{
  OutputFile, PipelineStage, Parsed, bad_input, bad_output, parsed, fresh_stage, parse_redirects,
  has_pipeline, parse_pipeline,
}
use c_shell.Command.Resolve.{System, strchr, is_executable, find_path, print_path}

-- What a command line makes the shell do: the messages it prints, and the calls of `run_pipeline`,
-- `run_pipeline_background` and `run_background`.
pub data Launch : Type 0 where
  invalid_syntax : Launch
  not_found : Bytes → Launch
  run_pipeline : List PipelineStage → ℕ → Launch
  run_pipeline_background : List PipelineStage → ℕ → Launch
  run_background : Bytes → List Bytes → List Bytes → List OutputFile → Launch

-- The name that is looked up and put in `argv[0]`, with the path it was found at.
abbrev pub Found : Type 0
Found = Option Bytes × Bytes

unfoldable pub look_up_name : System → Bytes → Found
look_up_name sys command =
    let path = print_path (b'.' ∷ b'/' ∷ command) in
    if is_executable sys path then (some path, command) else (find_path sys command, command)

-- The three ways of finding the command that both functions spell out.
unfoldable pub look_up : System → Bytes → Found
unfolding look_up_name
look_up sys [] = look_up_name sys []
look_up sys (c ∷ cs) =
    if strchr (c ∷ cs) b'/'
    then (if is_executable sys (c ∷ cs)
        then (some (print_path (c ∷ cs)), c ∷ cs)
        else (none, c ∷ cs))
    else if c == b'%'
    then (find_path sys cs, cs)
    else look_up_name sys (c ∷ cs)

-- The returned code and the launches.
abbrev pub Ran : Type 0
Ran = ℕ × List Launch

abbrev pub run_stage : Found → List Bytes → List Bytes → List OutputFile → Ran
run_stage (none, name) rest ins outs = (1, not_found name ∷ [])
run_stage (some path, name) rest ins outs =
    (0, run_pipeline (fresh_stage (name ∷ rest) ins outs ∷ []) 1 ∷ [])

abbrev pub exec_parsed : System → Parsed → Ran
exec_parsed sys bad_input = (0, invalid_syntax ∷ [])
exec_parsed sys bad_output = (0, [])
exec_parsed sys (parsed [] ins outs) = (0, [])
exec_parsed sys (parsed (command ∷ rest) ins outs) = run_stage (look_up sys command) rest ins outs

abbrev pub exec_pipeline : Option (List PipelineStage × ℕ) → Ran
exec_pipeline none = (0, invalid_syntax ∷ [])
exec_pipeline (some r) = (0, run_pipeline r.0 r.1 ∷ [])

unfoldable pub exec_command : System → List Token → Ran
exec_command sys current =
    if has_pipeline current
    then exec_pipeline (parse_pipeline sys.calloc_ok current)
    else exec_parsed sys (parse_redirects current)

abbrev pub background_stage : Found → List Bytes → List Bytes → List OutputFile → Ran
background_stage (none, name) rest ins outs = (1, not_found name ∷ [])
background_stage (some path, name) rest ins outs =
    (0, run_background path (name ∷ rest) ins outs ∷ [])

abbrev pub background_parsed : System → Parsed → Ran
background_parsed sys bad_input = (1, invalid_syntax ∷ [])
background_parsed sys bad_output = (1, invalid_syntax ∷ [])
background_parsed sys (parsed [] ins outs) = (1, invalid_syntax ∷ [])
background_parsed sys (parsed (command ∷ rest) ins outs) =
    background_stage (look_up sys command) rest ins outs

-- The code of `run_background` itself, which the caller drops, is not part of the record.
unfoldable pub exec_background_command : System → List Token → Ran
exec_background_command sys current = background_parsed sys (parse_redirects current)
