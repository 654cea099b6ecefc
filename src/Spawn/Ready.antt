-- ===== src/Spawn/Ready.antt =====
-- The stages of a pipeline (c-shell/src/command.c) once they are set up and their copiers run.
use c_shell.Base.{
  ℕ, suc, ◌≡◌, refl, sym, subst, Bool, true, false, List, [], ◌∷◌, ◌++◌, Option, some, none, inl,
  inr, ◌⊎◌, Bytes,
}
use c_shell.Command.{OutputFile, PipelineStage}
use c_shell.Spawn.{writer, copier, Kernel, open_output_files, setup_input}
use c_shell.Spawn.Stages.{with_input, with_output, input_of, output_of, setup_stage, setup_stages}
use c_shell.Spawn.Balance.{IsFresh, AllFresh}
use c_shell.Spawn.Logged.{
  Names, Grows, Grows-same, Grows-then, Runs, Runs-grows, inputs-grow, created-grow,
}
use c_shell.Spawn.Opened.{Failed, Opened, Fed, setup_input-Fed, open_output_files-Opened}

-- What the stage reads: nothing of its own without input files, else a pipe that a process fills from
-- them in order.
abbrev pub Feeds : Kernel → List Bytes → Option ℕ → Type 0
Feeds k [] o = o ≡ none
Feeds k (f ∷ fs) o =
    (r : ℕ) × (fds : List ℕ) × (o ≡ some r)
    × Names k.inputs fds (f ∷ fs)
    × Runs k (λ p. p.role ≡ writer fds (suc r))

-- With more than one output file a process copies a pipe into them.
abbrev pub Copies : Kernel → List OutputFile → PipelineStage → Type 0
Copies k [] s = Unit
Copies k (f ∷ []) s = Unit
Copies k (f ∷ g ∷ fs) s =
    (r : ℕ) × (s.output_pipe ≡ some (r, suc r)) × Runs k (λ p. p.role ≡ copier r s.output_fds)

Feeds-grow :
    (k k' : Kernel) (files : List Bytes) (o : Option ℕ)
    → Grows k k'
    → Feeds k files o
    → Feeds k' files o
Feeds-grow k k' [] o g h = h
Feeds-grow k k' (f ∷ fs) o g (r, fds, e, named, runs) =
    (r, fds, e, inputs-grow k k' fds (f ∷ fs) g named, Runs-grows k k' _ g runs)

-- Stage by stage.
unfoldable pub Each :
    (PipelineStage → PipelineStage → Type 0) → List PipelineStage → List PipelineStage → Type 0
Each P [] [] = Unit
Each P [] (t ∷ ts) = ⊥
Each P (s ∷ ss) [] = ⊥
Each P (s ∷ ss) (t ∷ ts) = P s t × Each P ss ts

pub Each-end :
    (P : PipelineStage → PipelineStage → Type 0) (ss ts : List PipelineStage) (s t : PipelineStage)
    → Each P ss ts
    → P s t
    → Each P (ss ++ s ∷ []) (ts ++ t ∷ [])
unfolding Each
Each-end P [] [] s t h e = (e, tt)
Each-end P [] (u ∷ ts) s t h e = absurd h
Each-end P (r ∷ ss) [] s t h e = absurd h
Each-end P (r ∷ ss) (u ∷ ts) s t h e = (h.0, Each-end P ss ts s t h.1 e)

module _ (ok : ℕ → Bool) where
  -- A stage as it is set up: a call failed, or its input and its output files are open.
  abbrev pub Ready : Kernel → PipelineStage → PipelineStage → Type 0
  Ready k s s' =
      (s'.argv ≡ s.argv)
      × (s'.input_files ≡ s.input_files)
      × (s'.output_files ≡ s.output_files)
      × (((s'.setup_failed ≡ true) × Failed ok)
          ⊎ ((s'.setup_failed ≡ false)
              × Feeds k s.input_files s'.input_fd
              × Names k.created s'.output_fds s.output_files))

  -- Before its output files are opened.
  abbrev HalfReady : Kernel → PipelineStage → PipelineStage → Type 0
  HalfReady k s s' =
      (s'.argv ≡ s.argv)
      × (s'.input_files ≡ s.input_files)
      × (s'.output_files ≡ s.output_files)
      × (s'.output_fds ≡ [])
      × (((s'.setup_failed ≡ true) × Failed ok)
          ⊎ ((s'.setup_failed ≡ false) × Feeds k s.input_files s'.input_fd))

  with_input-HalfReady :
      (f : Bytes) (fs : List Bytes) (s : PipelineStage) (k K : Kernel) (r : Option (ℕ × ℕ) × Kernel)
      → IsFresh s
      → s.input_files ≡ f ∷ fs
      → Fed ok k (f ∷ fs) r
      → Grows k (with_input s r).1 × (Grows (with_input s r).1 K → HalfReady K s (with_input s r).0)
  with_input-HalfReady f fs s k K (none, k') fresh e (failed, g) =
      (g, λ g'. (refl, refl, refl, fresh.no_fds, inl (refl, failed)))
  with_input-HalfReady f fs s k K (some (r, pid), k') fresh e (g, (fds, named, runs)) = (
    g,
    λ g'. (
      refl,
      refl,
      refl,
      fresh.no_fds,
      inr (
        fresh.not_failed,
        subst (λ l. Feeds K l (some r)) (sym e)
            (Feeds-grow k' K (f ∷ fs) (some r) g' (r, fds, refl, named, runs)),
      ),
    ),
  )

  input_of-HalfReady :
      (files : List Bytes) (s : PipelineStage) (k K : Kernel)
      → IsFresh s
      → s.input_files ≡ files
      → let r = input_of ok files s k in Grows k r.1 × (Grows r.1 K → HalfReady K s r.0)
  input_of-HalfReady [] s k K fresh e = (
    Grows-same k k refl refl refl,
    λ g. (
      refl,
      refl,
      refl,
      fresh.no_fds,
      inr (fresh.not_failed, subst (λ l. Feeds K l none) (sym e) refl),
    ),
  )
  input_of-HalfReady (f ∷ fs) s k K fresh e =
      with_input-HalfReady f fs s k K (setup_input ok (f ∷ fs) k) fresh e
        (setup_input-Fed ok (f ∷ fs) k)

  with_output-Ready :
      (f : OutputFile) (fs : List OutputFile) (s s' : PipelineStage) (k K : Kernel)
      (r : Option (List ℕ) × Kernel)
      → s.output_files ≡ f ∷ fs
      → Opened ok k [] (f ∷ fs) r
      → Grows k (with_output s' r).1
        × (Grows (with_output s' r).1 K → HalfReady K s s' → Ready K s (with_output s' r).0)
  with_output-Ready f fs s s' k K (none, k') e (failed, g) =
      (g, λ g' h. (h.0, h.1, h.2, inl (refl, failed)))
  with_output-Ready f fs s s' k K (some all, k') e (g, (new, e', named)) = (
    g,
    λ g' h. (
      h.0,
      h.1,
      h.2,
      elim h.4 [
        | inl failed ↦ inl failed
        | inr (fine, feeds) ↦ inr (
          fine,
          feeds,
          subst (Names K.created all) (sym e) (
              created-grow k' K all (f ∷ fs) g'
                (subst (λ fds. Names k'.created fds (f ∷ fs)) (sym e') named)),
        )
      ],
    ),
  )

  output_of-Ready :
      (files : List OutputFile) (s : PipelineStage) (k K : Kernel) (r : PipelineStage × Kernel)
      → s.output_files ≡ files
      → let o = output_of ok files r in
        Grows r.1 o.1 × (Grows o.1 K → HalfReady K s r.0 → Ready K s o.0)
  unfolding Names
  output_of-Ready [] s k K r e = (
    Grows-same r.1 r.1 refl refl refl,
    λ g h. (
      h.0,
      h.1,
      h.2,
      elim h.4 [
        | inl failed ↦ inl failed
        | inr (fine, feeds) ↦ inr (
          fine,
          feeds,
          subst (Names K.created r.0.output_fds) (sym e)
              (subst (λ fds. Names K.created fds []) (sym h.3) tt),
        )
      ],
    ),
  )
  output_of-Ready (f ∷ fs) s k K r e =
      with_output-Ready f fs s r.0 r.1 K (open_output_files ok (f ∷ fs) r.1) e
        (open_output_files-Opened ok (f ∷ fs) r.1)

  setup_stage-Ready :
      (s : PipelineStage) (k K : Kernel)
      → IsFresh s
      → let r = setup_stage ok s k in Grows k r.1 × (Grows r.1 K → Ready K s r.0)
  unfolding setup_stage
  setup_stage-Ready s k K fresh =
      let i = input_of ok s.input_files s k in
      let (g, half) = input_of-HalfReady s.input_files s k K fresh refl in
      let (g', ready) = output_of-Ready s.output_files s k K i refl in
      let o = output_of ok s.output_files i in
      (Grows-then k i.1 o.1 g g', λ last. ready last (half (Grows-then i.1 o.1 K g' last)))

  pub setup_stages-Ready :
      (ss : List PipelineStage) (k K : Kernel)
      → AllFresh ss
      → let r = setup_stages ok ss k in Grows k r.1 × (Grows r.1 K → Each (Ready K) ss r.0)
  unfolding setup_stages Each AllFresh
  setup_stages-Ready [] k K fresh = (Grows-same k k refl refl refl, λ g. tt)
  setup_stages-Ready (s ∷ ss) k K fresh =
      let r = setup_stage ok s k in
      let rest = setup_stages ok ss r.1 in
      let (g, ready) = setup_stage-Ready s k K fresh.0 in
      let (g', others) = setup_stages-Ready ss r.1 K fresh.1 in
      (Grows-then k r.1 rest.1 g g', λ last. (ready (Grows-then r.1 rest.1 K g' last), others last))
