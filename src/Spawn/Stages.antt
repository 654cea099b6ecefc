-- ===== src/Spawn/Stages.antt =====
-- The stages of a pipeline while it is set up and its processes are forked, as `run_pipeline` and
-- `run_pipeline_background` of c-shell/src/command.c share it.
use c_shell.Base.{
  ℕ, zero, suc, Bool, true, false, not, ◌&&◌, List, [], ◌∷◌, ◌++◌, Option, some, none, length, ltb,
  if◌then◌else◌, Bytes,
}
use c_shell.Command.{OutputFile, PipelineStage}
use c_shell.Command.Resolve.{System, resolve_command}
use c_shell.Spawn.{
  Pipe, Role, exits, execs, Kernel, optional, optional_pipe, called, fork_child, piping,
  open_output_files, setup_input,
}

abbrev pub with_input : PipelineStage → Option (ℕ × ℕ) × Kernel → PipelineStage × Kernel
with_input s (none, k) = (record s { input_fd = none; input_writer = none; setup_failed = true }, k)
with_input s (some (fd, pid), k) = (record s { input_fd = some fd; input_writer = some pid }, k)

abbrev pub with_output : PipelineStage → Option (List ℕ) × Kernel → PipelineStage × Kernel
with_output s (none, k) = (record s { output_fds = []; setup_failed = true }, k)
with_output s (some fds, k) = (record s { output_fds = fds }, k)

module _ (ok : ℕ → Bool) where
  abbrev pub input_of : List Bytes → PipelineStage → Kernel → PipelineStage × Kernel
  input_of [] s k = (record s { input_fd = none; input_writer = none }, k)
  input_of (f ∷ fs) s k = with_input s (setup_input ok (f ∷ fs) k)

  abbrev pub output_of : List OutputFile → PipelineStage × Kernel → PipelineStage × Kernel
  output_of [] r = r
  output_of (f ∷ fs) r = with_output r.0 (open_output_files ok (f ∷ fs) r.1)

  unfoldable pub setup_stage : PipelineStage → Kernel → PipelineStage × Kernel
  unfolding setup_input open_output_files
  setup_stage s k = output_of s.output_files (input_of s.input_files s k)

  unfoldable pub setup_stages : List PipelineStage → Kernel → List PipelineStage × Kernel
  unfolding setup_stage
  setup_stages [] k = ([], k)
  setup_stages (s ∷ ss) k =
      let r = setup_stage s k in let rest = setup_stages ss r.1 in (r.0 ∷ rest.0, rest.1)

  -- The pipes between the stages, up to the first call that fails, and whether all are made.
  unfoldable pub make_pipes : ℕ → Kernel → List Pipe × Bool × Kernel
  make_pipes zero k = ([], true, k)
  make_pipes (suc n) k =
      let rest = make_pipes n (piping k) in
      if ok k.next then ((k.next, suc k.next) ∷ rest.0, rest.1, rest.2) else ([], false, called k)

-- `close_pipeline_pipes`
unfoldable pub pipe_fds : List Pipe → List ℕ
pipe_fds [] = []
pipe_fds (p ∷ ps) = p.0 ∷ p.1 ∷ pipe_fds ps

-- The output files of a stage, where it is closed only if the setup did not fail.
abbrev pub output_fds_of : PipelineStage → List ℕ
output_fds_of s = if s.setup_failed then [] else s.output_fds

abbrev pub stage_fds : PipelineStage → List ℕ
stage_fds s = optional s.input_fd ++ output_fds_of s

unfoldable pub all_stage_fds : List PipelineStage → List ℕ
all_stage_fds [] = []
all_stage_fds (s ∷ ss) = stage_fds s ++ all_stage_fds ss

-- The descriptors of the stages with their output pipes, as the shell closes them at the end.
unfoldable pub all_fds : List PipelineStage → List ℕ
all_fds [] = []
all_fds (s ∷ ss) = (stage_fds s ++ optional_pipe s.output_pipe) ++ all_fds ss

abbrev pub copies_output : PipelineStage → Bool
copies_output s = ltb 1 (length s.output_files) && not s.setup_failed

-- The output pipe of a stage as a child closes it.
abbrev pub child_output_pipe : PipelineStage → List ℕ
child_output_pipe s = if copies_output s then optional_pipe s.output_pipe else []

unfoldable pub child_fds : List PipelineStage → List ℕ
child_fds [] = []
child_fds (s ∷ ss) = (stage_fds s ++ child_output_pipe s) ++ child_fds ss

-- What a child of stage `s` reads and writes, between the pipe before it and the one behind it.
abbrev pub stdin_of : PipelineStage → Option Pipe → Option ℕ
stdin_of s before = elim s.input_fd [
  | some fd ↦ some fd
  | none ↦ elim before [ none ↦ none | some p ↦ some p.0 ]
]

abbrev pub stdout_of : PipelineStage → Option Pipe → Option ℕ
stdout_of s behind = elim s.output_files [
  | [] ↦ elim behind [ none ↦ none | some p ↦ some p.1 ]
  | f ∷ [] ↦ elim s.output_fds [ [] ↦ none | fd ∷ fds ↦ some fd ]
  | f ∷ g ∷ fs ↦ elim s.output_pipe [ none ↦ none | some p ↦ some p.1 ]
]

abbrev pub first_word : List Bytes → Bytes
first_word [] = []
first_word (a ∷ argv) = a

abbrev pub with_name : Bytes → List Bytes → List Bytes
with_name name [] = []
with_name name (a ∷ argv) = name ∷ argv

abbrev pub resolved_role : PipelineStage → Option Pipe → Option Pipe → Option Bytes × Bytes → Role
resolved_role s before behind (none, name) = exits
resolved_role s before behind (some path, name) =
    execs path (with_name name s.argv) (stdin_of s before) (stdout_of s behind)

unfoldable pub child_role : System → PipelineStage → Option Pipe → Option Pipe → Role
unfolding resolve_command
child_role sys s before behind =
    if s.setup_failed
    then exits
    else resolved_role s before behind (resolve_command sys (first_word s.argv))

abbrev pub first_pipe : List Pipe → Option Pipe
first_pipe [] = none
first_pipe (p ∷ ps) = some p

abbrev pub other_pipes : List Pipe → List Pipe
other_pipes [] = []
other_pipes (p ∷ ps) = ps

module _ (ok : ℕ → Bool) (sys : System) (dropped : List ℕ) where
  -- The loop that forks the children, the pipe before the stage and those behind; `none` is a `fork`
  -- that failed.
  unfoldable pub fork_stages :
      Option Pipe → List Pipe → List PipelineStage → Kernel → List (Option ℕ) × Kernel
  unfolding fork_child child_role
  fork_stages before ps [] k = ([], k)
  fork_stages before ps (s ∷ ss) k =
      let role = child_role sys s before (first_pipe ps) in
      let forked = fork_stages (first_pipe ps) (other_pipes ps) ss (fork_child dropped role k) in
      let failed = fork_stages (first_pipe ps) (other_pipes ps) ss (called k) in
      if ok k.next then (some k.next ∷ forked.0, forked.1) else (none ∷ failed.0, failed.1)
