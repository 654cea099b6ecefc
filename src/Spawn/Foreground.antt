-- ===== src/Spawn/Foreground.antt =====
-- `start_output_copier` and `run_pipeline` of c-shell/src/command.c.
use c_shell.Base.{
  ℕ, suc, ◌-◌, Bool, true, false, not, List, [], ◌∷◌, ◌++◌, Option, some, none, length, take, ◌==◌,
  if◌then◌else◌, Bytes, codes,
}
use c_shell.Command.{PipelineStage}
use c_shell.Command.Resolve.{System}
use c_shell.Jobs.{Table, Message, register_stopped_job}
use c_shell.Spawn.{Pipe, copier, Kernel, close_all, both, optional, called, fork_child, piping}
use c_shell.Spawn.Stages.{
  setup_stages, make_pipes, pipe_fds, all_stage_fds, all_fds, copies_output, child_fds, first_word,
  fork_stages,
}

-- What a copier closes of the other stages: of one before or behind it, and of its own, which keeps its
-- output files.
unfoldable pub copier_drops :
    List PipelineStage → PipelineStage → List PipelineStage → List Pipe → List ℕ
unfolding pipe_fds all_stage_fds
copier_drops done s rest pipes =
    pipe_fds pipes ++ (all_stage_fds done ++ (optional s.input_fd ++ all_stage_fds rest))

-- A stage whose copier did not start, its output files closed.
abbrev pub without_copier : PipelineStage → Kernel → PipelineStage × Kernel
without_copier s k = (record s { setup_failed = true }, close_all s.output_fds k)

module _ (ok : ℕ → Bool) where
  unfoldable pub start_output_copier :
      List PipelineStage
      → PipelineStage
      → List PipelineStage
      → List Pipe
      → Kernel
      → PipelineStage × Kernel
  unfolding close_all fork_child copier_drops
  start_output_copier done s rest pipes k =
      let p : Pipe = (k.next, suc k.next) in
      let k' = piping k in
      if not (ok k.next)
      then without_copier s (called k)
      else if not (ok k'.next)
      then without_copier record s { output_pipe = none } (close_all (both p) (called k'))
      else (
        record s { output_pipe = some p; output_writer = some k'.next },
        fork_child (p.1 ∷ copier_drops done s rest pipes) (copier p.0 s.output_fds) k',
      )

  unfoldable pub copiers_loop :
      List PipelineStage → List PipelineStage → List Pipe → Kernel → List PipelineStage × Kernel
  unfolding start_output_copier
  copiers_loop done [] pipes k = (done, k)
  copiers_loop done (s ∷ rest) pipes k =
      let r = start_output_copier done s rest pipes k in
      let copied = copiers_loop (done ++ r.0 ∷ []) rest pipes r.1 in
      let left = copiers_loop (done ++ s ∷ []) rest pipes k in
      if copies_output s then copied else left

  -- With the stages set up: the children, unless a pipe could not be made, and the stages as they are
  -- then.
  unfoldable pub fork_pipeline :
      System
      → List PipelineStage
      → List Pipe × Bool × Kernel
      → Option (List (Option ℕ) × List PipelineStage) × Kernel
  unfolding close_all copiers_loop fork_stages all_fds child_fds
  fork_pipeline sys ss (pipes, made, k) =
      let ready = copiers_loop [] ss pipes k in
      let dropped = pipe_fds pipes ++ child_fds ready.0 in
      let forked = fork_stages ok sys dropped none pipes ready.0 ready.1 in
      if made
      then (
        some (forked.0, ready.0),
        close_all (all_fds ready.0) (close_all (pipe_fds pipes) forked.1),
      )
      else (none, close_all (all_stage_fds ss) (close_all (pipe_fds pipes) k))

  -- `run_pipeline` up to the wait.
  unfoldable pub start_pipeline :
      System → List PipelineStage → Kernel → Option (List (Option ℕ) × List PipelineStage) × Kernel
  unfolding setup_stages make_pipes fork_pipeline
  start_pipeline sys stages k =
      let r = setup_stages ok stages k in
      fork_pipeline sys r.0 (make_pipes ok (length stages - 1) r.1)

-- The children that were forked, with their names.
unfoldable pub job_procs : List (Option ℕ) → List PipelineStage → List (ℕ × Bytes)
job_procs [] ss = []
job_procs (c ∷ cs) [] = []
job_procs (none ∷ cs) (s ∷ ss) = job_procs cs ss
job_procs (some pid ∷ cs) (s ∷ ss) = (pid, first_word s.argv) ∷ job_procs cs ss

-- `strncat` into `cmdline[256]`.
abbrev pub strncat : Bytes → Bytes → Bytes
strncat line text = line ++ take (255 - length line) text

unfoldable pub args_line : Bytes → List Bytes → Bytes
args_line line [] = line
args_line line (a ∷ []) = strncat line a
args_line line (a ∷ b ∷ argv) = args_line (strncat (strncat line a) (codes " ")) (b ∷ argv)

unfoldable pub stages_line : Bytes → List PipelineStage → Bytes
unfolding args_line
stages_line line [] = line
stages_line line (s ∷ []) = args_line line s.argv
stages_line line (s ∷ t ∷ ss) = stages_line (strncat (args_line line s.argv) (codes " | ")) (t ∷ ss)

-- Behind the wait with its result, which is 1 for a stop and 2 for an interrupt: the job table, the
-- messages, and whether a newline is printed.
unfoldable pub after_foreground :
    Table → List (Option ℕ) → List PipelineStage → ℕ → Table × List Message × Bool
unfolding job_procs stages_line register_stopped_job
after_foreground t [] ss stopped = (t, [], false)
after_foreground t (none ∷ cs) ss stopped = (t, [], false)
after_foreground t (some pgid ∷ cs) ss stopped =
    let r = register_stopped_job t pgid (job_procs (some pgid ∷ cs) ss) (stages_line [] ss) in
    if stopped == 1 then (r.0, r.1, false) else (t, [], stopped == 2)
