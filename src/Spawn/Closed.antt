-- ===== src/Spawn/Closed.antt =====
-- What `run_pipeline` of c-shell/src/command.c leaves open, in the shell and in its children.
use c_shell.Base.{
  ℕ, zero, suc, ◌+◌, ◌≡◌, refl, ap, Bool, true, false, List, [], ◌∷◌, ◌++◌, append-nil, Option,
  none, Bool-cases, inl, inr, arith,
}
use c_shell.Command.{PipelineStage}
use c_shell.Command.Resolve.{System}
use c_shell.Spawn.{
  Pipe, Kernel, close_all, both, optional, optional_pipe, called, fork_child, piping,
}
use c_shell.Spawn.Stages.{
  setup_stages, setup_stage, make_pipes, pipe_fds, stage_fds, all_stage_fds, all_fds, copies_output,
  child_output_pipe, child_fds, first_pipe, other_pipes, fork_stages,
}
use c_shell.Spawn.Foreground.{without_copier, start_output_copier, copiers_loop}
use c_shell.Spawn.Balance.{
  count, count-append, AllFresh, leaked, all_leaked, Owes, Owes-close, Owes-pipe, Owes-eq,
  setup_stage-held,
}

unfoldable pub AllNoPipe : List PipelineStage → Type 0
AllNoPipe [] = Unit
AllNoPipe (s ∷ ss) = (s.output_pipe ≡ none) × AllNoPipe ss

-- The children close the output pipe of the stage exactly if it has one.
abbrev pub Tidy : PipelineStage → Type 0
Tidy s = child_output_pipe s ≡ optional_pipe s.output_pipe

unfoldable pub AllTidy : List PipelineStage → Type 0
AllTidy [] = Unit
AllTidy (s ∷ ss) = Tidy s × AllTidy ss

AllTidy-snoc :
    (ss : List PipelineStage) (s : PipelineStage) → AllTidy ss → Tidy s → AllTidy (ss ++ s ∷ [])
unfolding AllTidy
AllTidy-snoc [] s hs h = (h, tt)
AllTidy-snoc (t ∷ ts) s hs h = (hs.0, AllTidy-snoc ts s hs.1 h)

pub child_fds-Tidy : (ss : List PipelineStage) → AllTidy ss → child_fds ss ≡ all_fds ss
unfolding AllTidy child_fds all_fds
child_fds-Tidy [] h = refl
child_fds-Tidy (s ∷ ss) h = rw (h.0, child_fds-Tidy ss h.1) refl

Tidy-none : (s : PipelineStage) → s.output_pipe ≡ none → Tidy s
Tidy-none s none_ = elim (Bool-cases (copies_output s)) [
  | inl e ↦ rw e refl
  | inr e ↦ rw (e, none_) refl
]

module _ (fd : ℕ) (ok : ℕ → Bool) where
  pub setup_stages-held :
      (ss : List PipelineStage) (k : Kernel) (n : ℕ)
      → AllFresh ss
      → Owes fd k n
      → let r = setup_stages ok ss k in
        Owes fd r.1 (n + (count fd (all_stage_fds r.0) + count fd (all_leaked r.0))) × AllNoPipe r.0
  unfolding setup_stages AllFresh AllNoPipe all_stage_fds all_leaked count
  setup_stages-held [] k n fresh h = (Owes-eq fd k n (n + (0 + 0)) (omega arith) h, tt)
  setup_stages-held (s ∷ ss) k n fresh h =
      let one = setup_stage-held fd ok s k n fresh.0 h in
      let r = setup_stage ok s k in
      let rest =
        setup_stages-held ss r.1 (n + (count fd (stage_fds r.0) + count fd (leaked r.0))) fresh.1
          one.0 in
      let rs = setup_stages ok ss r.1 in
      (
        Owes-eq fd rs.1 _ _
            (omega (
              arith,
              count-append fd (stage_fds r.0) (all_stage_fds rs.0),
              count-append fd (leaked r.0) (all_leaked rs.0),
            ))
            rest.0,
        (one.1, rest.1),
      )

  pub make_pipes-held :
      (m : ℕ) (k : Kernel) (n : ℕ)
      → Owes fd k n
      → let r = make_pipes ok m k in Owes fd r.2 (n + count fd (pipe_fds r.0))
  unfolding make_pipes pipe_fds count Owes
  make_pipes-held zero k n h = omega (arith, h)
  make_pipes-held (suc m) k n h = elim (Bool-cases (ok k.next)) [
    | inl e ↦
        let r = make_pipes ok m (piping k) in
        rw e (
          Owes-eq fd r.2 _ _ (omega arith) (
            make_pipes-held m (piping k) (n + count fd (both (k.next, suc k.next)))
              (Owes-pipe fd k n h)))
    | inr e ↦ rw e (omega (arith, h))
  ]

  -- A stage behind the loop over the copiers, with the kernel.
  abbrev Ready : ℕ → PipelineStage × Kernel → Type 0
  Ready n (s, k) = Owes fd k (n + count fd (stage_fds s ++ optional_pipe s.output_pipe)) × Tidy s

  without_copier-Ready :
      (s : PipelineStage) (k : Kernel) (n : ℕ)
      → s.output_pipe ≡ none
      → Owes fd k ((n + count fd (optional s.input_fd)) + count fd s.output_fds)
      → Ready n (without_copier s k)
  unfolding count
  without_copier-Ready s k n none_ h = (
    Owes-eq fd (close_all s.output_fds k) (n + count fd (optional s.input_fd)) _
        (rw none_ (
          omega (
            arith,
            count-append fd (optional s.input_fd ++ []) [],
            count-append fd (optional s.input_fd) [],
          )))
        (Owes-close fd s.output_fds k (n + count fd (optional s.input_fd)) h),
    Tidy-none record s { setup_failed = true } none_,
  )

  open_outputs :
      (s : PipelineStage)
      → s.setup_failed ≡ false
      → count fd (stage_fds s) ≡ count fd (optional s.input_fd) + count fd s.output_fds
  open_outputs s good = rw good (count-append fd (optional s.input_fd) s.output_fds)

  start_output_copier-Ready :
      (done : List PipelineStage) (s : PipelineStage) (rest : List PipelineStage)
      (pipes : List Pipe) (k : Kernel) (n : ℕ)
      → s.output_pipe ≡ none
      → copies_output s ≡ true
      → Owes fd k (n + count fd (stage_fds s))
      → Ready n (start_output_copier ok done s rest pipes k)
  unfolding start_output_copier Owes
  start_output_copier-Ready done s rest pipes k n none_ copies h =
      let good : s.setup_failed ≡ false = ground (arith, copies) in
      let p : Pipe = (k.next, suc k.next) in
      elim (Bool-cases (ok k.next)) [
        | inl made ↦ elim (Bool-cases (ok (2 + k.next))) [
          | inl forked ↦
              rw (made, forked)
                (
                  omega (
                    arith,
                    h,
                    count-append fd k.opened (both p),
                    count-append fd (stage_fds s) (both p),
                  ),
                  rw copies refl,
                )
          | inr failed ↦
              rw (made, failed)
                (without_copier-Ready record s { output_pipe = none }
                  (close_all (both p) (called (piping k))) n refl
                  (omega (
                    arith,
                    h,
                    open_outputs s good,
                    count-append fd k.opened (both p),
                    count-append fd k.closed (both p),
                  )))
        ]
        | inr e ↦
            rw e (without_copier-Ready s (called k) n none_ (omega (arith, h, open_outputs s good)))
      ]

  all_fds-snoc :
      (ss : List PipelineStage) (s : PipelineStage)
      → count fd (all_fds (ss ++ s ∷ []))
        ≡ count fd (all_fds ss) + count fd (stage_fds s ++ optional_pipe s.output_pipe)
  unfolding all_fds count
  all_fds-snoc [] s = omega (arith, count-append fd (stage_fds s ++ optional_pipe s.output_pipe) [])
  all_fds-snoc (t ∷ ts) s =
      let f = stage_fds t ++ optional_pipe t.output_pipe in
      omega (
        arith,
        all_fds-snoc ts s,
        count-append fd f (all_fds (ts ++ s ∷ [])),
        count-append fd f (all_fds ts),
      )

  pub copiers_loop-held :
      (done ss : List PipelineStage) (pipes : List Pipe) (k : Kernel) (n : ℕ)
      → AllTidy done
      → AllNoPipe ss
      → Owes fd k ((n + count fd (all_fds done)) + count fd (all_stage_fds ss))
      → let r = copiers_loop ok done ss pipes k in
        Owes fd r.1 (n + count fd (all_fds r.0)) × AllTidy r.0
  unfolding copiers_loop AllNoPipe all_stage_fds count
  copiers_loop-held done [] pipes k n tidy none_ h = (Owes-eq fd k _ _ (omega arith) h, tidy)
  copiers_loop-held done (s ∷ ss) pipes k n tidy none_ h =
      let rest = count fd (all_stage_fds ss) in
      let before = n + count fd (all_fds done) in
      let here =
        Owes-eq fd k _ ((before + rest) + count fd (stage_fds s))
          (omega (arith, count-append fd (stage_fds s) (all_stage_fds ss))) h in
      elim (Bool-cases (copies_output s)) [
        | inl copies ↦
            let r = start_output_copier ok done s ss pipes k in
            let ready =
              start_output_copier-Ready done s ss pipes k (before + rest) none_.0 copies here in
            rw copies (
              copiers_loop-held (done ++ r.0 ∷ []) ss pipes r.1 n
                (AllTidy-snoc done r.0 tidy ready.1) none_.1
                (Owes-eq fd r.1 _ _ (omega (arith, all_fds-snoc done r.0)) ready.0))
        | inr plain ↦
            let same : stage_fds s ++ optional_pipe s.output_pipe ≡ stage_fds s =
              rw none_.0 (append-nil (stage_fds s)) in
            rw plain (
              copiers_loop-held (done ++ s ∷ []) ss pipes k n
                (AllTidy-snoc done s tidy (Tidy-none s none_.0)) none_.1
                (Owes-eq fd k _ _ (omega (arith, all_fds-snoc done s, ap (count fd) same)) here))
      ]

  -- The children leave the shell's descriptors as they are.
  pub fork_stages-held :
      (sys : System) (dropped : List ℕ) (before : Option Pipe) (ps : List Pipe)
      (ss : List PipelineStage) (k : Kernel) (n : ℕ)
      → Owes fd k n
      → Owes fd (fork_stages ok sys dropped before ps ss k).1 n
  unfolding fork_stages Owes fork_child
  fork_stages-held sys dropped before ps [] k n h = h
  fork_stages-held sys dropped before ps (s ∷ ss) k n h = elim (Bool-cases (ok k.next)) [
    | inl e ↦ rw e (fork_stages-held sys dropped (first_pipe ps) (other_pipes ps) ss _ n h)
    | inr e ↦ rw e (fork_stages-held sys dropped (first_pipe ps) (other_pipes ps) ss (called k) n h)
  ]
