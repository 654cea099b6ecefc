-- ===== src/Spawn/Complete.antt =====
-- What `run_pipeline` of c-shell/src/command.c starts when no call of the system fails.
use c_shell.Base.{
  ℕ, zero, suc, ◌-◌, ◌≡◌, ap, sym, subst, ◌∙◌, Bool, true, List, [], ◌∷◌, ◌++◌, append_assoc,
  append-nil, Option, some, none, length, inl, inr, ◌⊎◌, Bytes,
}
use c_shell.Command.{PipelineStage}
use c_shell.Command.Resolve.{System}
use c_shell.Sequence.Programs.{program, name_of, resolve_command-program}
use c_shell.Spawn.{Pipe, Role, exits, execs, Kernel, piping}
use c_shell.Spawn.Stages.{setup_stages, make_pipes, pipe_fds, first_word, with_name}
use c_shell.Spawn.Foreground.{start_pipeline}
use c_shell.Spawn.Balance.{AllFresh}
use c_shell.Spawn.Logged.{Runs}
use c_shell.Spawn.Opened.{Failed}
use c_shell.Spawn.Wired.{Reads, Writes, pipes_from, Child, Wired}
use c_shell.Spawn.Started.{Started, Piped, make_pipes-Piped, start_pipeline-Started}

module _ (sys : System) where
  -- The child of a stage, by its number: it was forked, and ends at once if there is no such program; else
  -- it runs that program with the arguments of the stage, its name in front, and reads and writes the files
  -- of the stage, or without any the pipe before it and the one behind it.
  abbrev pub Executes : Kernel → PipelineStage → Option Pipe → Option Pipe → Option ℕ → Type 0
  Executes k s before behind none = ⊥
  Executes k s before behind (some pid) =
      (role : Role) × Runs k (λ p. (p.pid ≡ pid) × (p.role ≡ role))
      × (((role ≡ exits) × (program sys (first_word s.argv) ≡ none))
          ⊎ ((path : Bytes) × (in_ : Option ℕ) × (out : Option ℕ) × (program sys (first_word s.argv)
                ≡ some path)
              × (role ≡ execs path (with_name (name_of (first_word s.argv)) s.argv) in_ out)
              × Reads k s.input_files before in_
              × Writes k s.output_files behind out))

  -- A child for each stage, each pipe behind one stage and before the next.
  unfoldable pub Complete :
      Kernel → Option Pipe → List Pipe → List PipelineStage → List (Option ℕ) → Type 0
  Complete k before ps [] cs = cs ≡ []
  Complete k before ps (s ∷ ss) [] = ⊥
  Complete k before [] (s ∷ []) (c ∷ cs) = Executes k s before none c × (cs ≡ [])
  Complete k before [] (s ∷ t ∷ ss) (c ∷ cs) = ⊥
  Complete k before (p ∷ ps) (s ∷ []) (c ∷ cs) = ⊥
  Complete k before (p ∷ ps) (s ∷ t ∷ ss) (c ∷ cs) =
      Executes k s before (some p) c × Complete k (some p) ps (t ∷ ss) cs

  module _ (ok : ℕ → Bool) (works : (n : ℕ) → ok n ≡ true) where
    never : Failed ok → ⊥
    never (n, h) = let w = works n in absurd (cc)

    Serves-Executes :
        (k : Kernel) (s : PipelineStage) (before behind : Option Pipe) (c : Option ℕ)
        → Child ok sys k s before behind c
        → Executes k s before behind c
    Serves-Executes k s before behind none h = absurd (never h)
    Serves-Executes k s before behind (some pid) (role, runs, inl (ends, inl failed)) =
        absurd (never failed)
    Serves-Executes k s before behind (some pid) (role, runs, inl (ends, inr missing)) = (
      role,
      runs,
      inl (ends, sym (ap (λ r. r.0) (resolve_command-program sys (first_word s.argv))) ∙ missing),
    )
    Serves-Executes k s before behind (some pid)
          (role, runs, inr (path, name, in_, out, found, execs_, reads, writes)) =
        let same = sym (resolve_command-program sys (first_word s.argv)) ∙ found in
        (
          role,
          runs,
          inr (
            path,
            in_,
            out,
            ap (λ r. r.0) same,
            subst (λ n. role ≡ execs path (with_name n s.argv) in_ out) (sym (ap (λ r. r.1) same))
                execs_,
            reads,
            writes,
          ),
        )

    Wired-Complete :
        (k : Kernel) (before : Option Pipe) (ps : List Pipe) (ss : List PipelineStage)
        (cs : List (Option ℕ))
        → Wired ok sys k before ps ss cs
        → Complete k before ps ss cs
    unfolding Wired Complete
    Wired-Complete k before [] [] cs h = h
    Wired-Complete k before (p ∷ ps) [] cs h = h
    Wired-Complete k before [] (s ∷ ss) [] h = absurd h
    Wired-Complete k before (p ∷ ps) (s ∷ ss) [] h = absurd h
    Wired-Complete k before [] (s ∷ []) (c ∷ cs) h = (Serves-Executes k s before none c h.0, h.1)
    Wired-Complete k before [] (s ∷ t ∷ ss) (c ∷ cs) h = absurd h
    Wired-Complete k before (p ∷ ps) (s ∷ []) (c ∷ cs) h = absurd h
    Wired-Complete k before (p ∷ ps) (s ∷ t ∷ ss) (c ∷ cs) h =
        (Serves-Executes k s before (some p) c h.0, Wired-Complete k (some p) ps (t ∷ ss) cs h.1)

    make_pipes-opened :
        (n : ℕ) (k : Kernel) → let r = make_pipes ok n k in r.2.opened ≡ k.opened ++ pipe_fds r.0
    unfolding make_pipes pipe_fds
    make_pipes-opened zero k = sym (append-nil k.opened)
    make_pipes-opened (suc n) k = rw (works k.next) (
        make_pipes-opened n (piping k)
        ∙ append_assoc k.opened (k.next ∷ suc k.next ∷ [])
            (pipe_fds (make_pipes ok n (piping k)).0))

    pipes-made :
        (n : ℕ) (k : Kernel) (r : List Pipe × Bool × Kernel)
        → Piped ok sys n k r
        → r.0 ≡ pipes_from k.next n
    pipes-made n k (ps, made, k') (g, inl (e, failed)) = absurd (never failed)
    pipes-made n k (ps, made, k') (g, inr (e, shape)) = shape

    -- What is started, with the pipes that were made for it.
    abbrev pub Launched :
        List Pipe
        → List PipelineStage
        → Option (List (Option ℕ) × List PipelineStage) × Kernel
        → Type 0
    Launched ps stages (none, k) = ⊥
    Launched ps stages (some (cs, ss), k) = Complete k none ps stages cs

    Started-Launched :
        (n : ℕ) (ps : List Pipe) (stages : List PipelineStage)
        (r : Option (List (Option ℕ) × List PipelineStage) × Kernel)
        → ps ≡ pipes_from n (length stages - 1)
        → Started ok sys n stages r
        → Launched ps stages r
    Started-Launched n ps stages (none, k) e h = absurd (never h)
    Started-Launched n ps stages (some (cs, ss), k) e h =
        subst (λ l. Complete k none l stages cs) (sym e)
          (Wired-Complete k none (pipes_from n (length stages - 1)) stages cs h)

    -- When no call of the system fails, `run_pipeline`, given stages that are not set up yet, opens a pipe
    -- between each stage and the next, no two the same, and forks one child for each stage. A child ends at
    -- once exactly if its command is not found; else it runs the program that is found with the arguments
    -- of the stage; it reads the input files of the stage in order, and without any the pipe before it; and
    -- it writes each of its output files, and without any the pipe behind it. The first and the last stage
    -- have the shell's own input and output for a pipe.
    pub start_pipeline-Complete :
        (stages : List PipelineStage) (k : Kernel)
        → AllFresh stages
        → let k' = (setup_stages ok stages k).1 in
          let made = make_pipes ok (length stages - 1) k' in
          (made.0 ≡ pipes_from k'.next (length stages - 1))
          × (made.2.opened ≡ k'.opened ++ pipe_fds made.0)
          × Launched made.0 stages (start_pipeline ok sys stages k)
    start_pipeline-Complete stages k fresh =
        let k' = (setup_stages ok stages k).1 in
        let n = length stages - 1 in
        let made = pipes-made n k' (make_pipes ok n k') (make_pipes-Piped ok sys n k') in
        (
          made,
          make_pipes-opened n k',
          Started-Launched k'.next (make_pipes ok n k').0 stages (start_pipeline ok sys stages k)
              made (start_pipeline-Started ok sys stages k fresh),
        )
