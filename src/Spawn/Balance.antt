-- ===== src/Spawn/Balance.antt =====
-- How often a descriptor is opened and closed while a pipeline is set up (c-shell/src/command.c).
use c_shell.Base.{
  ℕ, suc, ◌+◌, ◌≡◌, subst, Bool, true, false, List, [], ◌∷◌, ◌++◌, Option, some, none, ◌==◌,
  if◌then◌else◌, Bytes, Bool-cases, inl, inr, arith,
}
use c_shell.Command.{OutputFile, PipelineStage}
use c_shell.Spawn.{
  Kernel, close_all, both, optional, called, opening, reading, creating, piping, open_loop,
  open_output_files, input_loop, start_writer, opened_inputs, setup_input,
}
use c_shell.Spawn.Stages.{with_input, with_output, input_of, output_of, setup_stage, stage_fds}

unfoldable pub count : ℕ → List ℕ → ℕ
count fd [] = 0
count fd (x ∷ xs) = (if x == fd then 1 else 0) + count fd xs

pub count-append : (fd : ℕ) (xs ys : List ℕ) → count fd (xs ++ ys) ≡ count fd xs + count fd ys
unfolding count
count-append fd [] ys = omega arith
count-append fd (x ∷ xs) ys = omega (arith, count-append fd xs ys)

-- A stage before its setup, and what the setup opens for it.
pub record IsFresh (s : PipelineStage) : Type 0 where
  pub no_fds : s.output_fds ≡ []
  pub no_pipe : s.output_pipe ≡ none
  pub not_failed : s.setup_failed ≡ false

unfoldable pub AllFresh : List PipelineStage → Type 0
AllFresh [] = Unit
AllFresh (s ∷ ss) = IsFresh s × AllFresh ss

-- The output files that are open although the setup of the stage failed.
abbrev pub leaked : PipelineStage → List ℕ
leaked s = if s.setup_failed then s.output_fds else []

unfoldable pub all_leaked : List PipelineStage → List ℕ
all_leaked [] = []
all_leaked (s ∷ ss) = leaked s ++ all_leaked ss

module _ (fd : ℕ) where
  -- The descriptor has been opened so many times more than closed.
  unfoldable pub Owes : Kernel → ℕ → Type 0
  Owes k n = count fd k.opened ≡ count fd k.closed + n

  pub Owes-close :
      (fds : List ℕ) (k : Kernel) (n : ℕ) → Owes k (n + count fd fds) → Owes (close_all fds k) n
  unfolding Owes close_all
  Owes-close fds k n h = omega (arith, h, count-append fd k.closed fds)

  pub Owes-open : (k : Kernel) (n : ℕ) → Owes k n → Owes (opening k) (n + count fd (k.next ∷ []))
  unfolding Owes
  Owes-open k n h = omega (arith, h, count-append fd k.opened (k.next ∷ []))

  pub Owes-pipe :
      (k : Kernel) (n : ℕ) → Owes k n → Owes (piping k) (n + count fd (both (k.next, suc k.next)))
  unfolding Owes
  Owes-pipe k n h = omega (arith, h, count-append fd k.opened (both (k.next, suc k.next)))

  pub Owes-eq : (k : Kernel) (m n : ℕ) → m ≡ n → Owes k m → Owes k n
  Owes-eq k m n e h = subst (Owes k) e h

  abbrev pub Settled : ℕ → Option (List ℕ) × Kernel → Type 0
  Settled n (none, k) = Owes k n
  Settled n (some fds, k) = Owes k (n + count fd fds)

  opened_one :
      (fds : List ℕ) (k : Kernel) (n : ℕ)
      → Owes k (n + count fd fds)
      → Owes (opening k) (n + count fd (fds ++ k.next ∷ []))
  unfolding Owes
  opened_one fds k n h =
      omega (arith, h, count-append fd fds (k.next ∷ []), count-append fd k.opened (k.next ∷ []))

  module _ (ok : ℕ → Bool) where
    pub open_loop-Settled :
        (fds : List ℕ) (files : List OutputFile) (k : Kernel) (n : ℕ)
        → Owes k (n + count fd fds)
        → Settled n (open_loop ok fds files k)
    unfolding open_loop Owes
    open_loop-Settled fds [] k n h = h
    open_loop-Settled fds (f ∷ fs) k n h = elim (Bool-cases (ok k.next)) [
      | inl e ↦
          rw e (open_loop-Settled (fds ++ k.next ∷ []) fs (creating f k) n (opened_one fds k n h))
      | inr e ↦ rw e (Owes-close fds (called k) n h)
    ]

    input_loop-Settled :
        (fds : List ℕ) (files : List Bytes) (k : Kernel) (n : ℕ)
        → Owes k (n + count fd fds)
        → Settled n (input_loop ok fds files k)
    unfolding input_loop Owes
    input_loop-Settled fds [] k n h = h
    input_loop-Settled fds (f ∷ fs) k n h = elim (Bool-cases (ok k.next)) [
      | inl e ↦
          rw e (input_loop-Settled (fds ++ k.next ∷ []) fs (reading f k) n (opened_one fds k n h))
      | inr e ↦ rw e (Owes-close fds (called k) n h)
    ]

    -- The read end of the input, if there is one.
    abbrev pub Piped : ℕ → Option (ℕ × ℕ) × Kernel → Type 0
    Piped n (none, k) = Owes k n
    Piped n (some p, k) = Owes k (n + count fd (p.0 ∷ []))

    start_writer-Piped :
        (fds : List ℕ) (k : Kernel) (n : ℕ)
        → Owes k (n + count fd fds)
        → Piped n (start_writer ok fds k)
    unfolding start_writer Owes count
    start_writer-Piped fds k n h = elim (Bool-cases (ok k.next)) [
      | inl made ↦ elim (Bool-cases (ok (2 + k.next))) [
        | inl forked ↦
            rw (made, forked)
              (omega (
                arith,
                h,
                count-append fd k.opened (both (k.next, suc k.next)),
                count-append fd (k.closed ++ suc k.next ∷ []) fds,
                count-append fd k.closed (suc k.next ∷ []),
              ))
        | inr failed ↦
            rw (made, failed)
              (omega (
                arith,
                h,
                count-append fd k.opened (both (k.next, suc k.next)),
                count-append fd (k.closed ++ both (k.next, suc k.next)) fds,
                count-append fd k.closed (both (k.next, suc k.next)),
              ))
      ]
      | inr e ↦ rw e (Owes-close fds (called k) n h)
    ]

    opened_inputs-Piped :
        (r : Option (List ℕ) × Kernel) (n : ℕ) → Settled n r → Piped n (opened_inputs ok r)
    opened_inputs-Piped (none, k) n h = h
    opened_inputs-Piped (some fds, k) n h = start_writer-Piped fds k n h

    pub setup_input-Piped :
        (files : List Bytes) (k : Kernel) (n : ℕ) → Owes k n → Piped n (setup_input ok files k)
    unfolding setup_input count
    setup_input-Piped files k n h =
        opened_inputs-Piped (input_loop ok [] files k) n
          (input_loop-Settled [] files k n (Owes-eq k n (n + 0) (omega arith) h))

    abbrev WithInput : ℕ → PipelineStage × Kernel → Type 0
    WithInput n (s, k) =
        Owes k (n + count fd (optional s.input_fd)) × (s.output_fds ≡ []) × (s.output_pipe ≡ none)

    with_input-held :
        (s : PipelineStage) (r : Option (ℕ × ℕ) × Kernel) (n : ℕ)
        → IsFresh s
        → Piped n r
        → WithInput n (with_input s r)
    unfolding count
    with_input-held s (none, k) n fresh h =
        (Owes-eq k n (n + 0) (omega arith) h, fresh.no_fds, fresh.no_pipe)
    with_input-held s (some (fd', pid), k) n fresh h = (h, fresh.no_fds, fresh.no_pipe)

    input_of-held :
        (files : List Bytes) (s : PipelineStage) (k : Kernel) (n : ℕ)
        → IsFresh s
        → Owes k n
        → WithInput n (input_of ok files s k)
    unfolding count
    input_of-held [] s k n fresh h =
        (Owes-eq k n (n + 0) (omega arith) h, fresh.no_fds, fresh.no_pipe)
    input_of-held (f ∷ fs) s k n fresh h =
        with_input-held s (setup_input ok (f ∷ fs) k) n fresh (setup_input-Piped (f ∷ fs) k n h)

    -- What the stage has opened: what is closed at the end, and what leaks.
    stage_total :
        (s : PipelineStage)
        → count fd (optional s.input_fd) + count fd s.output_fds
          ≡ count fd (stage_fds s) + count fd (leaked s)
    unfolding count
    stage_total s = elim (Bool-cases s.setup_failed) [
      | inl e ↦ rw e (omega (arith, count-append fd (optional s.input_fd) []))
      | inr e ↦ rw e (omega (arith, count-append fd (optional s.input_fd) s.output_fds))
    ]

    abbrev pub WithOutput : ℕ → PipelineStage × Kernel → Type 0
    WithOutput n (s, k) =
        Owes k (n + (count fd (stage_fds s) + count fd (leaked s))) × (s.output_pipe ≡ none)

    WithOutput-total :
        (s : PipelineStage) (k : Kernel) (n : ℕ)
        → Owes k ((n + count fd (optional s.input_fd)) + count fd s.output_fds)
        → s.output_pipe ≡ none
        → WithOutput n (s, k)
    WithOutput-total s k n h none_ = (Owes-eq k _ _ (omega (arith, stage_total s)) h, none_)

    with_output-held :
        (s : PipelineStage) (r : Option (List ℕ) × Kernel) (n : ℕ)
        → s.output_pipe ≡ none
        → Settled (n + count fd (optional s.input_fd)) r
        → WithOutput n (with_output s r)
    unfolding count
    with_output-held s (none, k) n none_ h =
        WithOutput-total record s { output_fds = []; setup_failed = true } k n
          (Owes-eq k _ _ (omega arith) h) none_
    with_output-held s (some fds, k) n none_ h =
        WithOutput-total record s { output_fds = fds } k n h none_

    output_of-held :
        (files : List OutputFile) (r : PipelineStage × Kernel) (n : ℕ)
        → WithInput n r
        → WithOutput n (output_of ok files r)
    unfolding count open_output_files
    output_of-held [] (s, k) n h =
        WithOutput-total s k n (Owes-eq k _ _ (rw h.1 (omega arith)) h.0) h.2
    output_of-held (f ∷ fs) (s, k) n h =
        with_output-held s (open_output_files ok (f ∷ fs) k) n h.2 (
          open_loop-Settled [] (f ∷ fs) k (n + count fd (optional s.input_fd))
            (Owes-eq k _ _ (omega arith) h.0))

    pub setup_stage-held :
        (s : PipelineStage) (k : Kernel) (n : ℕ)
        → IsFresh s
        → Owes k n
        → WithOutput n (setup_stage ok s k)
    unfolding setup_stage
    setup_stage-held s k n fresh h =
        output_of-held s.output_files (input_of ok s.input_files s k) n
          (input_of-held s.input_files s k n fresh h)
