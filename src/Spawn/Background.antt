-- ===== src/Spawn/Background.antt =====
-- `run_pipeline_background` of c-shell/src/command.c and `run_background` of c-shell/src/background.c.
use c_shell.Base.{
  ℕ, suc, ◌-◌, Bool, true, not, List, [], ◌∷◌, ◌++◌, Option, some, none, length, ltb, if◌then◌else◌,
  Bytes,
}
use c_shell.Command.{OutputFile, PipelineStage}
use c_shell.Command.Resolve.{System}
use c_shell.Jobs.{Table, Message, register_background_job}
use c_shell.Spawn.{
  Pipe, copier, execs, Kernel, close_all, both, optional, optional_pipe, called, fork_child, piping,
  open_output_files, setup_input,
}
use c_shell.Spawn.Stages.{
  setup_stages, make_pipes, pipe_fds, all_fds, copies_output, child_fds, first_word, fork_stages,
}
use c_shell.Spawn.Foreground.{job_procs, args_line, stages_line}

-- What is closed when a pipe cannot be made.
unfoldable pub input_fds : List PipelineStage → List ℕ
input_fds [] = []
input_fds (s ∷ ss) = optional s.input_fd ++ input_fds ss

-- Where the process of `run_background` writes: into the output pipe, or the one output file.
abbrev pub background_stdout : Option Pipe → List ℕ → Option ℕ
background_stdout (some p) fds = some p.1
background_stdout none [] = none
background_stdout none (fd ∷ fds) = some fd

module _ (ok : ℕ → Bool) where
  -- The copier of a stage; behind a failed `fork` the stage keeps the numbers of the pipe.
  unfoldable pub background_copier : PipelineStage → Kernel → PipelineStage × Kernel
  unfolding close_all fork_child
  background_copier s k =
      let p : Pipe = (k.next, suc k.next) in
      let k' = piping k in
      if not (ok k.next)
      then (record s { setup_failed = true }, called k)
      else if not (ok k'.next)
      then (record s { output_pipe = some p; setup_failed = true }, close_all (both p) (called k'))
      else (
        record s { output_pipe = some p; output_writer = some k'.next },
        fork_child (p.1 ∷ []) (copier p.0 s.output_fds) k',
      )

  unfoldable pub background_copiers : List PipelineStage → Kernel → List PipelineStage × Kernel
  unfolding background_copier
  background_copiers [] k = ([], k)
  background_copiers (s ∷ ss) k =
      let r = background_copier s k in
      let copied = background_copiers ss r.1 in
      let left = background_copiers ss k in
      if copies_output s then (r.0 ∷ copied.0, copied.1) else (s ∷ left.0, left.1)

  unfoldable pub fork_background :
      System
      → List PipelineStage
      → List Pipe × Bool × Kernel
      → Option (List (Option ℕ) × List PipelineStage) × Kernel
  unfolding close_all background_copiers fork_stages all_fds child_fds input_fds
  fork_background sys ss (pipes, made, k) =
      let ready = background_copiers ss k in
      let dropped = pipe_fds pipes ++ child_fds ready.0 in
      let forked = fork_stages ok sys dropped none pipes ready.0 ready.1 in
      if made
      then (
        some (forked.0, ready.0),
        close_all (all_fds ready.0) (close_all (pipe_fds pipes) forked.1),
      )
      else (none, close_all (input_fds ss) k)

  unfoldable pub start_pipeline_background :
      System → List PipelineStage → Kernel → Option (List (Option ℕ) × List PipelineStage) × Kernel
  unfolding setup_stages make_pipes fork_background
  start_pipeline_background sys stages k =
      let r = setup_stages ok stages k in
      fork_background sys r.0 (make_pipes ok (length stages - 1) r.1)

  -- `run_background` with the input set up and the output files open: 1 is a failure, 0 a process that
  -- is forked.
  unfoldable pub launch_background :
      Bytes → List Bytes → Option ℕ → List ℕ → Option Pipe → Kernel → Option ℕ × Kernel
  unfolding close_all fork_child
  launch_background path argv input fds pipe k =
      let all = optional input ++ (optional_pipe pipe ++ fds) in
      if ok k.next
      then (
        some k.next,
        close_all all (fork_child all (execs path argv input (background_stdout pipe fds)) k),
      )
      else (none, close_all all (called k))

  -- The copier for more than one output file.
  unfoldable pub copied_background :
      Bytes → List Bytes → Option ℕ → List ℕ → Kernel → Option ℕ × Kernel
  unfolding launch_background
  copied_background path argv input fds k =
      let p : Pipe = (k.next, suc k.next) in
      let k' = piping k in
      if not (ok k.next)
      then (none, close_all (optional input ++ fds) (called k))
      else if not (ok k'.next)
      then (none, close_all (both p ++ (optional input ++ fds)) (called k'))
      else launch_background path argv input fds (some p)
          (fork_child (p.1 ∷ []) (copier p.0 fds) k')

  abbrev pub with_outputs :
      Bytes → List Bytes → Option ℕ → Option (List ℕ) × Kernel → Option ℕ × Kernel
  with_outputs path argv input (none, k) = (none, close_all (optional input) k)
  with_outputs path argv input (some fds, k) =
      if ltb 1 (length fds)
      then copied_background path argv input fds k
      else launch_background path argv input fds none k

  abbrev pub with_inputs :
      Bytes → List Bytes → List OutputFile → Option (ℕ × ℕ) × Kernel → Option ℕ × Kernel
  with_inputs path argv outs (none, k) = (none, k)
  with_inputs path argv outs (some (fd, pid), k) =
      with_outputs path argv (some fd) (open_output_files ok outs k)

  -- The process, unless `run_background` returns 1, and the descriptors.
  unfoldable pub start_background :
      Bytes → List Bytes → List Bytes → List OutputFile → Kernel → Option ℕ × Kernel
  unfolding setup_input open_output_files copied_background launch_background
  start_background path argv [] outs k = with_outputs path argv none (open_output_files ok outs k)
  start_background path argv (f ∷ fs) outs k =
      with_inputs path argv outs (setup_input ok (f ∷ fs) k)

-- The job that is registered, of a pipeline and of a single command.
abbrev pub register_pipeline :
    Table → Option (List (Option ℕ) × List PipelineStage) → Table × List Message
register_pipeline t none = (t, [])
register_pipeline t (some ([], ss)) = (t, [])
register_pipeline t (some (none ∷ cs, ss)) = (t, [])
register_pipeline t (some (some pgid ∷ cs, ss)) =
    register_background_job t pgid (job_procs (some pgid ∷ cs) ss) (stages_line [] ss)

abbrev pub register_command : Table → List Bytes → Option ℕ → Table × List Message
register_command t argv none = (t, [])
register_command t argv (some pid) =
    register_background_job t pid ((pid, first_word argv) ∷ []) (args_line [] argv)
