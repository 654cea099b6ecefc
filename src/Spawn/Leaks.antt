-- ===== src/Spawn/Leaks.antt =====
-- The descriptors that are left behind `run_pipeline` of c-shell/src/command.c.
use c_shell.Base.{
  ℕ, suc, ◌+◌, ◌-◌, ◌≡◌, refl, sym, ap, ◌∙◌, Bool, true, false, List, [], ◌∷◌, ◌++◌, append_assoc,
  append-nil, Option, some, none, length, Bool-cases, inl, inr, arith,
}
use c_shell.Command.{PipelineStage}
use c_shell.Command.Resolve.{System}
use c_shell.Jobs.Invariant.{All}
use c_shell.Spawn.{Pipe, Forked, Kernel, close_all, called, fork_child}
use c_shell.Spawn.Stages.{
  setup_stages, make_pipes, pipe_fds, all_stage_fds, all_fds, child_fds, child_role, first_pipe,
  other_pipes, fork_stages,
}
use c_shell.Spawn.Foreground.{copiers_loop, fork_pipeline, start_pipeline}
use c_shell.Spawn.Balance.{count, count-append, AllFresh, all_leaked, Owes, Owes-close, Owes-eq}
use c_shell.Spawn.Closed.{
  AllNoPipe, AllTidy, child_fds-Tidy, setup_stages-held, make_pipes-held, copiers_loop-held,
  fork_stages-held,
}

module _ (fd : ℕ) (ok : ℕ → Bool) (sys : System) where
  fork_pipeline-held :
      (ss : List PipelineStage) (pipes : List Pipe) (made : Bool) (k : Kernel) (n : ℕ)
      → AllNoPipe ss
      → Owes fd k ((n + count fd (all_stage_fds ss)) + count fd (pipe_fds pipes))
      → Owes fd (fork_pipeline ok sys ss (pipes, made, k)).1 n
  unfolding fork_pipeline AllTidy all_fds count
  fork_pipeline-held ss pipes false k n none_ h =
      Owes-close fd (all_stage_fds ss) (close_all (pipe_fds pipes) k) n
        (Owes-close fd (pipe_fds pipes) k (n + count fd (all_stage_fds ss)) h)
  fork_pipeline-held ss pipes true k n none_ h =
      let ready = copiers_loop ok [] ss pipes k in
      let held = n + count fd (pipe_fds pipes) in
      let copied =
        (copiers_loop-held fd ok [] ss pipes k held tt none_
          (Owes-eq fd k _ _ (omega arith) h)).0 in
      let dropped = pipe_fds pipes ++ child_fds ready.0 in
      let forked = fork_stages ok sys dropped none pipes ready.0 ready.1 in
      Owes-close fd (all_fds ready.0) (close_all (pipe_fds pipes) forked.1) n (
        Owes-close fd (pipe_fds pipes) forked.1 (n + count fd (all_fds ready.0)) (
          Owes-eq fd forked.1 _ _ (omega arith) (
            fork_stages-held fd ok sys dropped none pipes ready.0 ready.1
              (held + count fd (all_fds ready.0)) copied)))

  start_pipeline-Owes :
      (stages : List PipelineStage) (k : Kernel) (n : ℕ)
      → AllFresh stages
      → Owes fd k n
      → Owes fd
          (start_pipeline ok sys stages k).1
          (n + count fd (all_leaked (setup_stages ok stages k).0))
  unfolding start_pipeline
  start_pipeline-Owes stages k n fresh h =
      let r = setup_stages ok stages k in
      let set = setup_stages-held fd ok stages k n fresh h in
      let leaks = n + count fd (all_leaked r.0) in
      let pipes = make_pipes ok (length stages - 1) r.1 in
      fork_pipeline-held r.0 pipes.0 pipes.1 pipes.2 leaks set.1 (
        make_pipes-held fd ok (length stages - 1) r.1 (leaks + count fd (all_stage_fds r.0))
          (Owes-eq fd r.1 _ _ (omega arith) set.0))

-- The processes that the loop has forked.
unfoldable pub somes : List (Option ℕ) → ℕ
somes [] = 0
somes (none ∷ cs) = somes cs
somes (some c ∷ cs) = suc (somes cs)

unfoldable pub started : Option (List (Option ℕ) × List PipelineStage) → ℕ
unfolding somes
started none = 0
started (some (children, stages)) = somes children

module _ (ok : ℕ → Bool) (sys : System) where
  abbrev ForkedAt : List ℕ → List ℕ → List ℕ → Forked → Type 0
  ForkedAt opened closed dropped f =
      (f.opened ≡ opened) × (f.closed ≡ closed) × (f.dropped ≡ dropped)

  abbrev NewChildren : List ℕ → Kernel → List (Option ℕ) × Kernel → Type 0
  NewChildren dropped k r =
      (new : List Forked) × (r.1.forked ≡ k.forked ++ new)
      × (length new ≡ somes r.0)
      × All (ForkedAt k.opened k.closed dropped) new

  fork_stages-new :
      (dropped : List ℕ) (before : Option Pipe) (ps : List Pipe) (ss : List PipelineStage)
      (k : Kernel)
      → NewChildren dropped k (fork_stages ok sys dropped before ps ss k)
  unfolding fork_stages somes fork_child
  fork_stages-new dropped before ps [] k = ([], sym (append-nil k.forked), refl, tt)
  fork_stages-new dropped before ps (s ∷ ss) k = elim (Bool-cases (ok k.next)) [
    | inl e ↦
        let role = child_role sys s before (first_pipe ps) in
        let (new, appended, counted, all) =
          fork_stages-new dropped (first_pipe ps) (other_pipes ps) ss (fork_child dropped role k) in
        let child : Forked = record {
          pid = k.next;
          opened = k.opened;
          closed = k.closed;
          dropped = dropped;
          role = role;
        } in
        rw e (
          child ∷ new,
          appended ∙ append_assoc k.forked (child ∷ []) new,
          ap suc counted,
          ((refl, refl, refl), all),
        )
    | inr e ↦ rw e (fork_stages-new dropped (first_pipe ps) (other_pipes ps) ss (called k))
  ]

module _ (fd : ℕ) (ok : ℕ → Bool) (sys : System) where
  -- Before it copies or calls `execv` the process holds the descriptor m times.
  abbrev pub Holds : ℕ → Forked → Type 0
  Holds m f = count fd f.opened ≡ (count fd f.closed + count fd f.dropped) + m

  All-Holds :
      (opened closed dropped : List ℕ) (m : ℕ) (fs : List Forked)
      → count fd opened ≡ (count fd closed + count fd dropped) + m
      → All (ForkedAt ok sys opened closed dropped) fs
      → All (Holds m) fs
  All-Holds opened closed dropped m [] h all = tt
  All-Holds opened closed dropped m (f ∷ fs) h all =
      (rw (all.0.0, all.0.1, all.0.2) h, All-Holds opened closed dropped m fs h all.1)

  children_total :
      (ss : List PipelineStage) (pipes : List Pipe) (k : Kernel) (n : ℕ)
      → AllNoPipe ss
      → Owes fd k ((n + count fd (all_stage_fds ss)) + count fd (pipe_fds pipes))
      → let ready = copiers_loop ok [] ss pipes k in
        count fd ready.1.opened
        ≡ (count fd ready.1.closed + count fd (pipe_fds pipes ++ child_fds ready.0)) + n
  unfolding Owes AllTidy all_fds count
  children_total ss pipes k n none_ h =
      let ready = copiers_loop ok [] ss pipes k in
      let held = n + count fd (pipe_fds pipes) in
      let copied =
        copiers_loop-held fd ok [] ss pipes k held tt none_ (Owes-eq fd k _ _ (omega arith) h) in
      omega (
        arith,
        copied.0,
        ap (count fd) (child_fds-Tidy ready.0 copied.1),
        count-append fd (pipe_fds pipes) (child_fds ready.0),
      )

  -- The last processes forked are those of the children, and each holds the descriptor m times.
  abbrev pub ChildrenHold : ℕ → Option (List (Option ℕ) × List PipelineStage) × Kernel → Type 0
  ChildrenHold m r =
      (others : List Forked) × (new : List Forked) × (r.1.forked ≡ others ++ new)
      × (length new ≡ started r.0)
      × All (Holds m) new

  fork_pipeline-children :
      (ss : List PipelineStage) (pipes : List Pipe) (made : Bool) (k : Kernel) (n : ℕ)
      → AllNoPipe ss
      → Owes fd k ((n + count fd (all_stage_fds ss)) + count fd (pipe_fds pipes))
      → ChildrenHold n (fork_pipeline ok sys ss (pipes, made, k))
  unfolding fork_pipeline close_all started
  fork_pipeline-children ss pipes false k n none_ h =
      (k.forked, [], sym (append-nil k.forked), refl, tt)
  fork_pipeline-children ss pipes true k n none_ h =
      let ready = copiers_loop ok [] ss pipes k in
      let dropped = pipe_fds pipes ++ child_fds ready.0 in
      let (new, appended, counted, all) =
        fork_stages-new ok sys dropped none pipes ready.0 ready.1 in
      (
        ready.1.forked,
        new,
        appended,
        counted,
        All-Holds ready.1.opened ready.1.closed dropped n new (children_total ss pipes k n none_ h)
            all,
      )

  start_pipeline-children :
      (stages : List PipelineStage) (k : Kernel) (n : ℕ)
      → AllFresh stages
      → Owes fd k n
      → ChildrenHold
          (n + count fd (all_leaked (setup_stages ok stages k).0))
          (start_pipeline ok sys stages k)
  unfolding start_pipeline
  start_pipeline-children stages k n fresh h =
      let r = setup_stages ok stages k in
      let set = setup_stages-held fd ok stages k n fresh h in
      let leaks = n + count fd (all_leaked r.0) in
      let pipes = make_pipes ok (length stages - 1) r.1 in
      fork_pipeline-children r.0 pipes.0 pipes.1 pipes.2 leaks set.1 (
        make_pipes-held fd ok (length stages - 1) r.1 (leaks + count fd (all_stage_fds r.0))
          (Owes-eq fd r.1 _ _ (omega arith) set.0))

  -- Whichever calls of the system fail, behind `run_pipeline` the shell has closed each descriptor as
  -- often as it has opened it, but for the output files of the stages whose input could not be set up,
  -- which stay open. The last processes forked are the children that the shell waits for, and before
  -- its `execv` each has, of each descriptor, as many as the shell had at the start and those.
  pub start_pipeline-left :
      (stages : List PipelineStage) (k : Kernel) (n : ℕ)
      → AllFresh stages
      → Owes fd k n
      → let leaks = n + count fd (all_leaked (setup_stages ok stages k).0) in
        Owes fd (start_pipeline ok sys stages k).1 leaks
        × ChildrenHold leaks (start_pipeline ok sys stages k)
  start_pipeline-left stages k n fresh h =
      (start_pipeline-Owes fd ok sys stages k n fresh h, start_pipeline-children stages k n fresh h)
