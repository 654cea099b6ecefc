-- ===== src/Spawn/Copied.antt =====
-- The stages of a pipeline (c-shell/src/command.c) once their copiers run.
use c_shell.Base.{
  ℕ, suc, ◌+◌, ◌≡◌, refl, sym, subst, Bool, true, false, List, [], ◌∷◌, ◌++◌, append_assoc,
  append-nil, some, length, inl, inr, ltb, Bool-cases, arith,
}
use c_shell.Command.{OutputFile, PipelineStage}
use c_shell.Spawn.{Pipe, copier, Kernel, close_all, both, called, fork_child, piping}
use c_shell.Spawn.Stages.{copies_output}
use c_shell.Spawn.Foreground.{copier_drops, start_output_copier, copiers_loop}
use c_shell.Spawn.Logged.{Some-last, Grows, Grows-same, Grows-then, Grows-fork, Runs, Runs-grows}
use c_shell.Spawn.Ready.{Copies, Each, Each-end, Ready}

module _ (ok : ℕ → Bool) where
  -- A stage with its copier, if it needs one.
  abbrev pub Copied : Kernel → PipelineStage → PipelineStage → Type 0
  Copied K s s' = Ready ok K s s' × ((s'.setup_failed ≡ false) → Copies K s.output_files s')

  few-Copies :
      (K : Kernel) (files : List OutputFile) (s' : PipelineStage)
      → ltb 1 (length files) ≡ false
      → Copies K files s'
  few-Copies K [] s' few = tt
  few-Copies K (f ∷ []) s' few = tt
  few-Copies K (f ∷ g ∷ fs) s' few = absurd (ground (arith, few))

  uncopied :
      (K : Kernel) (s s' : PipelineStage)
      → copies_output s' ≡ false
      → Ready ok K s s'
      → Copied K s s'
  uncopied K s s' none_ (a, i, o, io) = (
    (a, i, o, io),
    λ fine.
        few-Copies K s.output_files s'
          (subst (λ l. ltb 1 (length l) ≡ false) o (ground (arith, none_, fine))),
  )

  not_both : ◌≡◌ {A = Bool} true false → ⊥
  not_both e = cc

  piped-Copies :
      (r : ℕ) (K : Kernel) (files : List OutputFile) (s' : PipelineStage)
      → s'.output_pipe ≡ some (r, suc r)
      → Runs K (λ p. p.role ≡ copier r s'.output_fds)
      → Copies K files s'
  piped-Copies r K [] s' e runs = tt
  piped-Copies r K (f ∷ []) s' e runs = tt
  piped-Copies r K (f ∷ g ∷ fs) s' e runs = (r, e, runs)

  start_output_copier-Copied :
      (done : List PipelineStage) (s s' : PipelineStage) (rest : List PipelineStage)
      (pipes : List Pipe) (k K : Kernel)
      → let r = start_output_copier ok done s' rest pipes k in
        Grows k r.1 × (Grows r.1 K → Ready ok K s s' → Copied K s r.0)
  unfolding start_output_copier close_all
  start_output_copier-Copied done s s' rest pipes k K =
      let drops = suc k.next ∷ copier_drops done s' rest pipes in
      elim (Bool-cases (ok k.next)) [
        | inr e ↦ rw e (
          Grows-same k (close_all s'.output_fds (called k)) refl refl refl,
          λ g (a, i, o, io). ((a, i, o, inl (refl, (k.next, e))), λ fine. absurd (not_both fine)),
        )
        | inl made ↦ elim (Bool-cases (ok (2 + k.next))) [
          | inr e ↦
              rw (made, e)
                (
                  Grows-same k
                      (close_all s'.output_fds
                        (close_all (both (k.next, suc k.next)) (called (piping k))))
                      refl refl refl,
                  λ g (a, i, o, io).
                      ((a, i, o, inl (refl, (2 + k.next, e))), λ fine. absurd (not_both fine)),
                )
          | inl forks ↦
              rw (made, forks)
                (
                  Grows-fork drops (copier k.next s'.output_fds) (piping k),
                  λ g (a, i, o, io). (
                    (a, i, o, io),
                    λ fine. piped-Copies k.next K s.output_files _ refl (
                        Runs-grows (fork_child drops (copier k.next s'.output_fds) (piping k)) K _ g
                          (Some-last _ k.forked _ refl)),
                  ),
                )
        ]
      ]

  pub copiers_loop-Grows :
      (done rest : List PipelineStage) (pipes : List Pipe) (k : Kernel)
      → Grows k (copiers_loop ok done rest pipes k).1
  unfolding copiers_loop
  copiers_loop-Grows done [] pipes k = Grows-same k k refl refl refl
  copiers_loop-Grows done (t ∷ ts) pipes k = elim (Bool-cases (copies_output t)) [
    | inl e ↦
        let r = start_output_copier ok done t ts pipes k in
        rw e (
          Grows-then k r.1 (copiers_loop ok (done ++ r.0 ∷ []) ts pipes r.1).1
            (start_output_copier-Copied done t t ts pipes k k).0
            (copiers_loop-Grows (done ++ r.0 ∷ []) ts pipes r.1))
    | inr e ↦ rw e (copiers_loop-Grows (done ++ t ∷ []) ts pipes k)
  ]

  -- With the stages in `done` copied and those in `rest` set up.
  pub copiers_loop-Copied :
      (before behind done rest : List PipelineStage) (pipes : List Pipe) (k K : Kernel)
      → Grows (copiers_loop ok done rest pipes k).1 K
      → Each (Copied K) before done
      → Each (Ready ok K) behind rest
      → Each (Copied K) (before ++ behind) (copiers_loop ok done rest pipes k).0
  unfolding copiers_loop Each
  copiers_loop-Copied before [] done [] pipes k K =
      λ g b r. subst (λ l. Each (Copied K) l done) (sym (append-nil before)) b
  copiers_loop-Copied before (s ∷ ss) done [] pipes k K = λ g b r. absurd r
  copiers_loop-Copied before [] done (t ∷ ts) pipes k K = λ g b r. absurd r
  copiers_loop-Copied before (s ∷ ss) done (t ∷ ts) pipes k K =
      elim (Bool-cases (copies_output t)) [
        | inl e ↦
            let c = start_output_copier ok done t ts pipes k in
            let (g, copied) = start_output_copier-Copied done s t ts pipes k K in
            rw e (λ last b r.
              subst (λ l. Each (Copied K) l (copiers_loop ok (done ++ c.0 ∷ []) ts pipes c.1).0)
                (append_assoc before (s ∷ []) ss)
                (copiers_loop-Copied (before ++ s ∷ []) ss (done ++ c.0 ∷ []) ts pipes c.1 K last
                  (Each-end (Copied K) before done s c.0 b (
                    copied
                      (Grows-then c.1 (copiers_loop ok (done ++ c.0 ∷ []) ts pipes c.1).1 K
                        (copiers_loop-Grows (done ++ c.0 ∷ []) ts pipes c.1) last)
                      r.0))
                  r.1))
        | inr e ↦ rw e (λ last b r.
            subst (λ l. Each (Copied K) l (copiers_loop ok (done ++ t ∷ []) ts pipes k).0)
              (append_assoc before (s ∷ []) ss)
              (copiers_loop-Copied (before ++ s ∷ []) ss (done ++ t ∷ []) ts pipes k K last
                (Each-end (Copied K) before done s t b (uncopied K s t e r.0)) r.1))
      ]
