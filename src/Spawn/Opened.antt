-- ===== src/Spawn/Opened.antt =====
-- What the calls of open_output_files and setup_input in c-shell/src/command.c log.
use c_shell.Base.{
  ℕ, suc, ◌+◌, ◌≡◌, refl, sym, subst, ◌∙◌, Bool, false, List, [], ◌∷◌, ◌++◌, append_assoc,
  append-nil, Option, some, none, inl, inr, Bool-cases, Bytes,
}
use c_shell.Command.{OutputFile}
use c_shell.Spawn.{
  writer, Kernel, close_all, called, fork_child, reading, creating, piping, open_loop,
  open_output_files, input_loop, start_writer, opened_inputs, setup_input,
}
use c_shell.Spawn.Logged.{
  Some-last, Names, Longer-refl, Grows, Grows-same, Grows-then, Grows-fork, Runs, Some-Longer,
}

module _ (ok : ℕ → Bool) where
  -- Some call fails.
  abbrev pub Failed : Type 0
  Failed = (n : ℕ) × (ok n ≡ false)

  -- Behind the files that are open already, the new descriptors are of the files; or a call failed.
  abbrev pub Opened : Kernel → List ℕ → List OutputFile → Option (List ℕ) × Kernel → Type 0
  Opened k fds files (none, k') = Failed × Grows k k'
  Opened k fds files (some all, k') =
      Grows k k' × ((new : List ℕ) × (all ≡ fds ++ new) × Names k'.created new files)

  Opened-later :
      (k : Kernel) (fds : List ℕ) (f : OutputFile) (fs : List OutputFile)
      (r : Option (List ℕ) × Kernel)
      → Opened (creating f k) (fds ++ k.next ∷ []) fs r
      → Opened k fds (f ∷ fs) r
  unfolding Names
  Opened-later k fds f fs (none, k') (failed, g) = (
    failed,
    Grows-then k (creating f k) k' (Longer-refl k.inputs, (_, refl), Longer-refl k.forked) g,
  )
  Opened-later k fds f fs (some all, k') (g, (new, e, named)) = (
    Grows-then k (creating f k) k' (Longer-refl k.inputs, (_, refl), Longer-refl k.forked) g,
    (
      k.next ∷ new,
      e ∙ append_assoc fds (k.next ∷ []) new,
      (
        Some-Longer _ (k.created ++ (k.next, f) ∷ []) k'.created g.1
            (Some-last _ k.created (k.next, f) (refl, refl)),
        named,
      ),
    ),
  )

  open_loop-Opened :
      (fds : List ℕ) (files : List OutputFile) (k : Kernel)
      → Opened k fds files (open_loop ok fds files k)
  unfolding open_loop Names close_all
  open_loop-Opened fds [] k = (Grows-same k k refl refl refl, ([], sym (append-nil fds), tt))
  open_loop-Opened fds (f ∷ fs) k = elim (Bool-cases (ok k.next)) [
    | inl e ↦
        rw e (Opened-later k fds f fs _ (open_loop-Opened (fds ++ k.next ∷ []) fs (creating f k)))
    | inr e ↦ rw e ((k.next, e), Grows-same k (close_all fds (called k)) refl refl refl)
  ]

  abbrev pub Read : Kernel → List ℕ → List Bytes → Option (List ℕ) × Kernel → Type 0
  Read k fds files (none, k') = Failed × Grows k k'
  Read k fds files (some all, k') =
      Grows k k' × ((new : List ℕ) × (all ≡ fds ++ new) × Names k'.inputs new files)

  Read-later :
      (k : Kernel) (fds : List ℕ) (f : Bytes) (fs : List Bytes) (r : Option (List ℕ) × Kernel)
      → Read (reading f k) (fds ++ k.next ∷ []) fs r
      → Read k fds (f ∷ fs) r
  unfolding Names
  Read-later k fds f fs (none, k') (failed, g) = (
    failed,
    Grows-then k (reading f k) k' ((_, refl), Longer-refl k.created, Longer-refl k.forked) g,
  )
  Read-later k fds f fs (some all, k') (g, (new, e, named)) = (
    Grows-then k (reading f k) k' ((_, refl), Longer-refl k.created, Longer-refl k.forked) g,
    (
      k.next ∷ new,
      e ∙ append_assoc fds (k.next ∷ []) new,
      (
        Some-Longer _ (k.inputs ++ (k.next, f) ∷ []) k'.inputs g.0
            (Some-last _ k.inputs (k.next, f) (refl, refl)),
        named,
      ),
    ),
  )

  input_loop-Read :
      (fds : List ℕ) (files : List Bytes) (k : Kernel)
      → Read k fds files (input_loop ok fds files k)
  unfolding input_loop Names close_all
  input_loop-Read fds [] k = (Grows-same k k refl refl refl, ([], sym (append-nil fds), tt))
  input_loop-Read fds (f ∷ fs) k = elim (Bool-cases (ok k.next)) [
    | inl e ↦ rw e (Read-later k fds f fs _ (input_loop-Read (fds ++ k.next ∷ []) fs (reading f k)))
    | inr e ↦ rw e ((k.next, e), Grows-same k (close_all fds (called k)) refl refl refl)
  ]

  -- The read end of a pipe that a process fills from the files, in order; or a call failed.
  abbrev pub Fed : Kernel → List Bytes → Option (ℕ × ℕ) × Kernel → Type 0
  Fed k files (none, k') = Failed × Grows k k'
  Fed k files (some (r, pid), k') =
      Grows k k'
      × ((fds : List ℕ) × Names k'.inputs fds files × Runs k' (λ f. f.role ≡ writer fds (suc r)))

  start_writer-Fed :
      (fds : List ℕ) (files : List Bytes) (k : Kernel)
      → Names k.inputs fds files
      → Fed k files (start_writer ok fds k)
  unfolding start_writer close_all fork_child
  start_writer-Fed fds files k named = elim (Bool-cases (ok k.next)) [
    | inr e ↦ rw e ((k.next, e), Grows-same k (close_all fds (called k)) refl refl refl)
    | inl made ↦ elim (Bool-cases (ok (2 + k.next))) [
      | inr e ↦
          rw (made, e)
            ((2 + k.next, e), Grows-same k (close_all fds (called (piping k))) refl refl refl)
      | inl forks ↦
          rw (made, forks)
            (
              Grows-fork (k.next ∷ []) (writer fds (suc k.next)) (piping k),
              (fds, named, Some-last _ k.forked _ refl),
            )
    ]
  ]

  Fed-later :
      (files : List Bytes) (k k' : Kernel) (r : Option (ℕ × ℕ) × Kernel)
      → Grows k k'
      → Fed k' files r
      → Fed k files r
  Fed-later files k k' (none, k'') g (failed, g') = (failed, Grows-then k k' k'' g g')
  Fed-later files k k' (some (r, pid), k'') g (g', fed) = (Grows-then k k' k'' g g', fed)

  opened_inputs-Fed :
      (files : List Bytes) (k : Kernel) (r : Option (List ℕ) × Kernel)
      → Read k [] files r
      → Fed k files (opened_inputs ok r)
  opened_inputs-Fed files k (none, k') h = h
  opened_inputs-Fed files k (some all, k') (g, (new, e, named)) =
      Fed-later files k k' (start_writer ok all k') g
        (start_writer-Fed all files k' (subst (λ fds. Names k'.inputs fds files) (sym e) named))

  pub setup_input-Fed : (files : List Bytes) (k : Kernel) → Fed k files (setup_input ok files k)
  unfolding setup_input
  setup_input-Fed files k =
      opened_inputs-Fed files k (input_loop ok [] files k) (input_loop-Read [] files k)

  pub open_output_files-Opened :
      (files : List OutputFile) (k : Kernel) → Opened k [] files (open_output_files ok files k)
  unfolding open_output_files
  open_output_files-Opened files k = open_loop-Opened [] files k
