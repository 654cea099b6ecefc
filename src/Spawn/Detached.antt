-- ===== src/Spawn/Detached.antt =====
-- The descriptors behind `run_background` of c-shell/src/background.c, and those that the copiers of
-- `run_pipeline_background` of c-shell/src/command.c keep.
use c_shell.Base.{
  ℕ, suc, ◌+◌, ◌<◌, ◌≡◌, refl, sym, ap, ◌∙◌, Bool, false, List, [], ◌∷◌, ◌++◌, append_assoc,
  append-nil, Option, some, none, length, ltb, ◌==◌, Bytes, Bool-cases, inl, inr, arith,
}
use c_shell.Command.{OutputFile, PipelineStage}
use c_shell.Jobs.Invariant.{All}
use c_shell.Spawn.{
  Pipe, copier, Forked, Kernel, close_all, both, optional, optional_pipe, called, fork_child,
  piping, open_output_files, setup_input,
}
use c_shell.Spawn.Stages.{copies_output}
use c_shell.Spawn.Background.{
  background_copier, background_copiers, launch_background, copied_background, with_outputs,
  with_inputs, start_background,
}
use c_shell.Spawn.Balance.{
  count, count-append, Owes, Owes-close, Owes-pipe, Owes-eq, Settled, open_loop-Settled, Piped,
  setup_input-Piped,
}

module _ (fd : ℕ) (ok : ℕ → Bool) (path : Bytes) (argv : List Bytes) where
  launch_background-Owes :
      (input : Option ℕ) (fds : List ℕ) (pipe : Option Pipe) (k : Kernel) (n : ℕ)
      → Owes fd k (n + count fd (optional input ++ (optional_pipe pipe ++ fds)))
      → Owes fd (launch_background ok path argv input fds pipe k).1 n
  unfolding launch_background Owes fork_child close_all
  launch_background-Owes input fds pipe k n h = elim (Bool-cases (ok k.next)) [
    | inl e ↦ rw e (Owes-close fd (optional input ++ (optional_pipe pipe ++ fds)) k n h)
    | inr e ↦ rw e (Owes-close fd (optional input ++ (optional_pipe pipe ++ fds)) (called k) n h)
  ]

  copied_background-Owes :
      (input : Option ℕ) (fds : List ℕ) (k : Kernel) (n : ℕ)
      → Owes fd k (n + count fd (optional input ++ fds))
      → Owes fd (copied_background ok path argv input fds k).1 n
  unfolding copied_background Owes fork_child
  copied_background-Owes input fds k n h =
      let p : Pipe = (k.next, suc k.next) in
      let made = Owes-pipe fd k (n + count fd (optional input ++ fds)) h in
      let total = count-append fd (both p) (optional input ++ fds) in
      elim (Bool-cases (ok k.next)) [
        | inl pipe ↦ elim (Bool-cases (ok (2 + k.next))) [
          | inl forked ↦
              rw (pipe, forked)
                (launch_background-Owes input fds (some p)
                  (fork_child (p.1 ∷ []) (copier p.0 fds) (piping k)) n
                  (omega (
                    arith,
                    made,
                    count-append fd (optional input) fds,
                    count-append fd (optional input) (both p ++ fds),
                    count-append fd (both p) fds,
                  )))
          | inr failed ↦
              rw (pipe, failed)
                (Owes-close fd (both p ++ (optional input ++ fds)) (called (piping k)) n
                  (omega (arith, made, total)))
        ]
        | inr e ↦ rw e (Owes-close fd (optional input ++ fds) (called k) n h)
      ]

  with_outputs-Owes :
      (input : Option ℕ) (r : Option (List ℕ) × Kernel) (n : ℕ)
      → Settled fd (n + count fd (optional input)) r
      → Owes fd (with_outputs ok path argv input r).1 n
  with_outputs-Owes input (none, k) n h = Owes-close fd (optional input) k n h
  with_outputs-Owes input (some fds, k) n h =
      let total =
        Owes-eq fd k _ (n + count fd (optional input ++ fds))
          (omega (arith, count-append fd (optional input) fds)) h in
      elim (Bool-cases (ltb 1 (length fds))) [
        | inl e ↦ rw e (copied_background-Owes input fds k n total)
        | inr e ↦ rw e (launch_background-Owes input fds none k n total)
      ]

  with_inputs-Owes :
      (outs : List OutputFile) (r : Option (ℕ × ℕ) × Kernel) (n : ℕ)
      → Piped fd ok n r
      → Owes fd (with_inputs ok path argv outs r).1 n
  unfolding open_output_files count
  with_inputs-Owes outs (none, k) n h = h
  with_inputs-Owes outs (some (input, pid), k) n h =
      with_outputs-Owes (some input) (open_output_files ok outs k) n (
        open_loop-Settled fd ok [] outs k (n + count fd (input ∷ []))
          (Owes-eq fd k _ _ (omega arith) h))

  -- Whichever calls of the system fail, behind `run_background` the shell has closed each descriptor as
  -- often as it has opened it.
  pub start_background-Owes :
      (ins : List Bytes) (outs : List OutputFile) (k : Kernel) (n : ℕ)
      → Owes fd k n
      → Owes fd (start_background ok path argv ins outs k).1 n
  unfolding start_background open_output_files count
  start_background-Owes [] outs k n h =
      with_outputs-Owes none (open_output_files ok outs k) n
        (open_loop-Settled fd ok [] outs k (n + 0) (Owes-eq fd k n _ (omega arith) h))
  start_background-Owes (f ∷ fs) outs k n h =
      with_inputs-Owes outs (setup_input ok (f ∷ fs) k) n (setup_input-Piped fd ok (f ∷ fs) k n h)

module _ (fd : ℕ) (ok : ℕ → Bool) where
  -- A process that still holds the descriptor when it copies.
  abbrev pub Keeps : Forked → Type 0
  Keeps f = count fd f.closed + count fd f.dropped < count fd f.opened

  abbrev Held : ℕ → Kernel → Type 0
  Held m k = Owes fd k (suc m) × (fd < k.next)

  count-later : (x : ℕ) → fd < x → count fd (x ∷ []) ≡ 0
  unfolding count
  count-later x h = let other : (x == fd) ≡ false = ground (arith, h) in rw other refl

  count-later_pipe : (x : ℕ) → fd < x → count fd (both (x, suc x)) ≡ 0
  unfolding count
  count-later_pipe x h =
      let other : (x == fd) ≡ false = ground (arith, h) in
      let next : (suc x == fd) ≡ false = ground (arith, h) in rw (other, next) refl

  abbrev pub AllKeep : Kernel → Kernel → Type 0
  AllKeep k k' = (new : List Forked) × (k'.forked ≡ k.forked ++ new) × All Keeps new

  background_copier-keeps :
      (s : PipelineStage) (k : Kernel) (m : ℕ)
      → Held m k
      → let r = background_copier ok s k in AllKeep k r.1 × Owes fd r.1 (suc m) × (fd < r.1.next)
  unfolding background_copier Owes fork_child close_all
  background_copier-keeps s k m (held, low) =
      let p : Pipe = (k.next, suc k.next) in
      let later = count-later_pipe k.next low in
      let opened = count-append fd k.opened (both p) in
      elim (Bool-cases (ok k.next)) [
        | inl made ↦ elim (Bool-cases (ok (2 + k.next))) [
          | inl forked ↦
              let child : Forked = record {
                pid = 2 + k.next;
                opened = k.opened ++ both p;
                closed = k.closed;
                dropped = p.1 ∷ [];
                role = copier p.0 s.output_fds;
              } in
              rw (made, forked)
                (
                  (
                    child ∷ [],
                    refl,
                    (
                      omega (
                        arith,
                        held,
                        later,
                        opened,
                        count-later (suc k.next) (omega (arith, low)),
                      ),
                      tt,
                    ),
                  ),
                  omega (arith, held, later, opened),
                  omega (arith, low),
                )
          | inr failed ↦
              rw (made, failed)
                (
                  ([], sym (append-nil k.forked), tt),
                  omega (arith, held, later, opened, count-append fd k.closed (both p)),
                  omega (arith, low),
                )
        ]
        | inr e ↦ rw e (([], sym (append-nil k.forked), tt), held, omega (arith, low))
      ]

  All-append : (xs ys : List Forked) → All Keeps xs → All Keeps ys → All Keeps (xs ++ ys)
  All-append [] ys hx hy = hy
  All-append (x ∷ xs) ys hx hy = (hx.0, All-append xs ys hx.1 hy)

  AllKeep-then : (k k' k'' : Kernel) → AllKeep k k' → AllKeep k' k'' → AllKeep k k''
  AllKeep-then k k' k'' (xs, e, all) (ys, e', all') = (
    xs ++ ys,
    e' ∙ ap (λ fs. fs ++ ys) e ∙ append_assoc k.forked xs ys,
    All-append xs ys all all',
  )

  -- The processes that copy the outputs of a background pipeline keep each descriptor that the shell
  -- holds when it starts them, the ends of the pipes between the stages among them.
  pub background_copiers-keep :
      (ss : List PipelineStage) (k : Kernel) (m : ℕ)
      → Owes fd k (suc m)
      → fd < k.next
      → AllKeep k (background_copiers ok ss k).1
  unfolding background_copiers
  background_copiers-keep [] k m held low = ([], sym (append-nil k.forked), tt)
  background_copiers-keep (s ∷ ss) k m held low = elim (Bool-cases (copies_output s)) [
    | inl copies ↦
        let r = background_copier ok s k in
        let (one, held', low') = background_copier-keeps s k m (held, low) in
        rw copies (
          AllKeep-then k r.1 (background_copiers ok ss r.1).1 one
            (background_copiers-keep ss r.1 m held' low'))
    | inr plain ↦ rw plain (background_copiers-keep ss k m held low)
  ]
