-- ===== src/Spawn/Started.antt =====
-- What `run_pipeline` of c-shell/src/command.c starts.
use c_shell.Base.{
  ℕ, zero, suc, ◌-◌, ◌≡◌, refl, ap, sym, subst, Bool, true, false, List, [], ◌∷◌, ◌++◌, Option,
  some, none, length, inl, inr, ◌⊎◌, Bool-cases,
}
use c_shell.Command.{PipelineStage}
use c_shell.Command.Resolve.{System}
use c_shell.Spawn.{Pipe, Kernel, close_all, called, fork_child, piping}
use c_shell.Spawn.Stages.{
  setup_stages, make_pipes, pipe_fds, all_fds, child_fds, child_role, first_pipe, other_pipes,
  fork_stages,
}
use c_shell.Spawn.Foreground.{copiers_loop, fork_pipeline, start_pipeline}
use c_shell.Spawn.Balance.{AllFresh}
use c_shell.Spawn.Logged.{Some-last, Grows, Grows-same, Grows-then, Grows-fork, Runs-grows}
use c_shell.Spawn.Opened.{Failed}
use c_shell.Spawn.Ready.{Ready, Each, setup_stages-Ready}
use c_shell.Spawn.Copied.{Copied, copiers_loop-Grows, copiers_loop-Copied}
use c_shell.Spawn.Wired.{Fits, pipes_from, Fits-pipes_from, Child, Wired, child_role-Serves}

module _ (ok : ℕ → Bool) (sys : System) where
  module _ (dropped : List ℕ) where
    fork_stages-Grows :
        (before : Option Pipe) (ps : List Pipe) (ss : List PipelineStage) (k : Kernel)
        → Grows k (fork_stages ok sys dropped before ps ss k).1
    unfolding fork_stages
    fork_stages-Grows before ps [] k = Grows-same k k refl refl refl
    fork_stages-Grows before ps (s ∷ ss) k = elim (Bool-cases (ok k.next)) [
      | inl e ↦
          let role = child_role sys s before (first_pipe ps) in
          let k1 = fork_child dropped role k in
          rw e (
            Grows-then k k1 (fork_stages ok sys dropped (first_pipe ps) (other_pipes ps) ss k1).1
              (Grows-fork dropped role k)
              (fork_stages-Grows (first_pipe ps) (other_pipes ps) ss k1))
      | inr e ↦ rw e (
          Grows-then k (called k)
            (fork_stages ok sys dropped (first_pipe ps) (other_pipes ps) ss (called k)).1
            (Grows-same k (called k) refl refl refl)
            (fork_stages-Grows (first_pipe ps) (other_pipes ps) ss (called k)))
    ]

    -- The first child, and what is left to fork.
    fork_first :
        (before : Option Pipe) (ps : List Pipe) (s s' : PipelineStage) (ss : List PipelineStage)
        (k K : Kernel)
        → Copied ok K s s'
        → Grows (fork_stages ok sys dropped before ps (s' ∷ ss) k).1 K
        → (c : Option ℕ) × (k1 : Kernel) × (fork_stages ok sys dropped before ps (s' ∷ ss) k ≡ (
            let rest = fork_stages ok sys dropped (first_pipe ps) (other_pipes ps) ss k1 in
            (c ∷ rest.0, rest.1)))
          × Child ok sys K s before (first_pipe ps) c
    unfolding fork_stages
    fork_first before ps s s' ss k K ready = elim (Bool-cases (ok k.next)) [
      | inl e ↦
          let role = child_role sys s' before (first_pipe ps) in
          let k1 = fork_child dropped role k in
          rw e (λ last. (
            some k.next,
            k1,
            refl,
            (
              role,
              Runs-grows k1 K _
                  (Grows-then k1
                    (fork_stages ok sys dropped (first_pipe ps) (other_pipes ps) ss k1).1 K
                    (fork_stages-Grows (first_pipe ps) (other_pipes ps) ss k1) last)
                  (Some-last _ k.forked _ (refl, refl)),
              child_role-Serves ok sys K s s' before (first_pipe ps) ready,
            ),
          ))
      | inr e ↦ rw e (λ last. (none, called k, refl, (k.next, e)))
    ]

    no_children :
        (before : Option Pipe) (ps : List Pipe) (k : Kernel)
        → (fork_stages ok sys dropped before ps [] k).0 ≡ []
    unfolding fork_stages
    no_children before ps k = refl

    alone :
        (before : Option Pipe) (ps : List Pipe) (ss' : List PipelineStage) (k K : Kernel)
        → Each (Copied ok K) [] ss'
        → (fork_stages ok sys dropped before ps ss' k).0 ≡ []
    unfolding Each
    alone before ps [] k K each = no_children before ps k
    alone before ps (s ∷ ss) k K each = absurd each

    fork_stages-Wired :
        (before : Option Pipe) (ps : List Pipe) (ss ss' : List PipelineStage) (k K : Kernel)
        → Fits ps ss
        → Each (Copied ok K) ss ss'
        → Grows (fork_stages ok sys dropped before ps ss' k).1 K
        → Wired ok sys K before ps ss (fork_stages ok sys dropped before ps ss' k).0
    unfolding Wired Each
    fork_stages-Wired before ps [] [] k K fits each last = no_children before ps k
    fork_stages-Wired before ps [] (s' ∷ ss') k K fits each last = absurd each
    fork_stages-Wired before ps (s ∷ ss) [] k K fits each last = absurd each
    fork_stages-Wired before [] (s ∷ []) (s' ∷ ss') k K fits each last =
        let (c, k1, e, child) = fork_first before [] s s' ss' k K each.0 last in
        rw e (child, alone none [] ss' k1 K each.1)
    fork_stages-Wired before [] (s ∷ t ∷ ss) (s' ∷ ss') k K fits each last = absurd fits
    fork_stages-Wired before (p ∷ ps) (s ∷ []) (s' ∷ ss') k K fits each last = absurd fits
    fork_stages-Wired before (p ∷ ps) (s ∷ t ∷ ss) (s' ∷ ss') k K fits each last =
        let (c, k1, e, child) = fork_first before (p ∷ ps) s s' ss' k K each.0 last in
        rw e (
          child,
          fork_stages-Wired (some p) ps (t ∷ ss) ss' k1 K fits each.1
              (subst (λ r. Grows r.1 K) e last),
        )

  abbrev pub Piped : ℕ → Kernel → List Pipe × Bool × Kernel → Type 0
  Piped n k (ps, made, k') =
      Grows k k' × (((made ≡ false) × Failed ok) ⊎ ((made ≡ true) × (ps ≡ pipes_from k.next n)))

  Piped-later :
      (n : ℕ) (k : Kernel) (r : List Pipe × Bool × Kernel)
      → Piped n (piping k) r
      → Piped (suc n) k ((k.next, suc k.next) ∷ r.0, r.1, r.2)
  unfolding pipes_from
  Piped-later n k (ps, made, k') (g, h) = (
    Grows-then k (piping k) k' (Grows-same k (piping k) refl refl refl) g,
    elim h [
      | inl failed ↦ inl failed
      | inr (made, e) ↦ inr (made, ap (◌∷◌ (k.next, suc k.next)) e)
    ],
  )

  pub make_pipes-Piped : (n : ℕ) (k : Kernel) → Piped n k (make_pipes ok n k)
  unfolding make_pipes pipes_from
  make_pipes-Piped zero k = (Grows-same k k refl refl refl, inr (refl, refl))
  make_pipes-Piped (suc n) k = elim (Bool-cases (ok k.next)) [
    | inl e ↦ rw e (Piped-later n k (make_pipes ok n (piping k)) (make_pipes-Piped n (piping k)))
    | inr e ↦ rw e (Grows-same k (called k) refl refl refl, inl (refl, (k.next, e)))
  ]

  -- The children of a pipeline, unless a call failed and none was forked.
  abbrev pub Started :
      ℕ → List PipelineStage → Option (List (Option ℕ) × List PipelineStage) × Kernel → Type 0
  Started n stages (none, k) = Failed ok
  Started n stages (some (cs, ss), k) =
      Wired ok sys k none (pipes_from n (length stages - 1)) stages cs

  fork_pipeline-Started :
      (stages ss : List PipelineStage) (k : Kernel) (r : List Pipe × Bool × Kernel)
      → Piped (length stages - 1) k r
      → ((K : Kernel) → Grows k K → Each (Ready ok K) stages ss)
      → Started k.next stages (fork_pipeline ok sys ss r)
  unfolding fork_pipeline close_all Each
  fork_pipeline-Started stages ss k (ps, made, k') (g, h) ready = elim h [
    | inl (e, failed) ↦ rw e failed
    | inr (e, shape) ↦
        let c = copiers_loop ok [] ss ps k' in
        let dropped = pipe_fds ps ++ child_fds c.0 in
        let K = (fork_stages ok sys dropped none ps c.0 c.1).1 in
        let forked = fork_stages-Grows dropped none ps c.0 c.1 in
        let later = Grows-then k' c.1 K (copiers_loop-Grows ok [] ss ps k') forked in
        let last : Grows K (close_all (all_fds c.0) (close_all (pipe_fds ps) K)) =
          Grows-same K (close_all (all_fds c.0) (close_all (pipe_fds ps) K)) refl refl refl in
        let end = close_all (all_fds c.0) (close_all (pipe_fds ps) K) in
        let copied =
          copiers_loop-Copied ok [] stages [] ss ps k' end (Grows-then c.1 K end forked last) tt
            (ready end (Grows-then k k' end g (Grows-then k' K end later last))) in
        let fits = subst (λ l. Fits l stages) (sym shape) (Fits-pipes_from k.next stages) in
        rw e (
          subst (λ l. Wired ok sys end none l stages (fork_stages ok sys dropped none ps c.0 c.1).0)
            shape (fork_stages-Wired dropped none ps stages c.0 c.1 end fits copied last))
  ]

  -- Whichever calls of the system fail, either none is forked because one failed, or the children are
  -- wired from stage to stage.
  pub start_pipeline-Started :
      (stages : List PipelineStage) (k : Kernel)
      → AllFresh stages
      → Started (setup_stages ok stages k).1.next stages (start_pipeline ok sys stages k)
  unfolding start_pipeline
  start_pipeline-Started stages k fresh =
      let r = setup_stages ok stages k in
      fork_pipeline-Started stages r.0 r.1 (make_pipes ok (length stages - 1) r.1)
        (make_pipes-Piped (length stages - 1) r.1)
        (λ K g. (setup_stages-Ready ok stages k K fresh).1 g)
