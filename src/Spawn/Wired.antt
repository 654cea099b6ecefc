-- ===== src/Spawn/Wired.antt =====
-- What the children of `run_pipeline` in c-shell/src/command.c run, read and write.
use c_shell.Base.{
  ℕ, zero, suc, ◌+◌, ◌-◌, ◌≡◌, refl, ap, sym, subst, Bool, List, [], ◌∷◌, Option, some, none,
  length, inl, inr, ◌⊎◌, if◌then◌else◌, Bytes, arith,
}
use c_shell.Command.{OutputFile, PipelineStage}
use c_shell.Command.Resolve.{System, resolve_command}
use c_shell.Spawn.{Pipe, Role, copier, exits, execs, Kernel}
use c_shell.Spawn.Stages.{stdin_of, stdout_of, first_word, with_name, child_role, resolved_role}
use c_shell.Spawn.Logged.{Some, Names, Runs}
use c_shell.Spawn.Opened.{Failed}
use c_shell.Spawn.Ready.{Feeds, Copies}
use c_shell.Spawn.Copied.{Copied}

abbrev pub read_end : Option Pipe → Option ℕ
read_end none = none
read_end (some p) = some p.0

abbrev pub write_end : Option Pipe → Option ℕ
write_end none = none
write_end (some p) = some p.1

-- What a child reads: its input files, in order, through a process, or else the pipe before it.
abbrev pub Reads : Kernel → List Bytes → Option Pipe → Option ℕ → Type 0
Reads k [] before in_ = in_ ≡ read_end before
Reads k (f ∷ fs) before in_ = Feeds k (f ∷ fs) in_

-- What a child writes: the pipe behind it, its one output file, or a pipe that a process copies into its
-- output files.
abbrev pub Writes : Kernel → List OutputFile → Option Pipe → Option ℕ → Type 0
Writes k [] behind out = out ≡ write_end behind
Writes k (f ∷ []) behind out =
    (fd : ℕ) × (out ≡ some fd) × Some (λ e. (e.0 ≡ fd) × (e.1 ≡ f)) k.created
Writes k (f ∷ g ∷ fs) behind out =
    (r : ℕ) × (fds : List ℕ) × (out ≡ some (suc r))
    × Names k.created fds (f ∷ g ∷ fs)
    × Runs k (λ p. p.role ≡ copier r fds)

-- As many pipes as there are stages behind the first.
abbrev pub Fits : List Pipe → List PipelineStage → Type 0
Fits ps [] = Unit
Fits [] (s ∷ []) = Unit
Fits [] (s ∷ t ∷ ss) = ⊥
Fits (p ∷ ps) (s ∷ []) = ⊥
Fits (p ∷ ps) (s ∷ t ∷ ss) = Fits ps (t ∷ ss)

-- The pipes that so many calls make, from the number of the first one on.
unfoldable pub pipes_from : ℕ → ℕ → List Pipe
pipes_from n zero = []
pipes_from n (suc more) = (n, suc n) ∷ pipes_from (2 + n) more

pub Fits-pipes_from : (n : ℕ) (ss : List PipelineStage) → Fits (pipes_from n (length ss - 1)) ss
unfolding pipes_from
Fits-pipes_from n [] = tt
Fits-pipes_from n (s ∷ []) = tt
Fits-pipes_from n (s ∷ t ∷ ss) =
    let e : length (s ∷ t ∷ ss) - 1 ≡ suc (length (t ∷ ss) - 1) = omega arith in
    subst (λ m. Fits (pipes_from n m) (s ∷ t ∷ ss)) (sym e) (Fits-pipes_from (2 + n) (t ∷ ss))

module _ (ok : ℕ → Bool) (sys : System) where
  -- The role of the child of a stage: it runs the program of the stage, or ends at once because a call
  -- failed or there is no such program.
  abbrev pub Serves : Kernel → PipelineStage → Option Pipe → Option Pipe → Role → Type 0
  Serves k s before behind role =
      ((role ≡ exits) × (Failed ok ⊎ ((resolve_command sys (first_word s.argv)).0 ≡ none)))
      ⊎ ((path : Bytes) × (name : Bytes) × (in_ : Option ℕ) × (out : Option ℕ) × (resolve_command
              sys (first_word s.argv)
            ≡ (some path, name))
          × (role ≡ execs path (with_name name s.argv) in_ out)
          × Reads k s.input_files before in_
          × Writes k s.output_files behind out)

  -- The child of a stage, or that the call of `fork` failed.
  abbrev pub Child : Kernel → PipelineStage → Option Pipe → Option Pipe → Option ℕ → Type 0
  Child k s before behind none = Failed ok
  Child k s before behind (some pid) =
      (role : Role) × Runs k (λ p. (p.pid ≡ pid) × (p.role ≡ role)) × Serves k s before behind role

  -- A child for each stage, and a pipe between each and the next.
  unfoldable pub Wired :
      Kernel → Option Pipe → List Pipe → List PipelineStage → List (Option ℕ) → Type 0
  Wired k before ps [] cs = cs ≡ []
  Wired k before ps (s ∷ ss) [] = ⊥
  Wired k before [] (s ∷ []) (c ∷ cs) = Child k s before none c × (cs ≡ [])
  Wired k before [] (s ∷ t ∷ ss) (c ∷ cs) = ⊥
  Wired k before (p ∷ ps) (s ∷ []) (c ∷ cs) = ⊥
  Wired k before (p ∷ ps) (s ∷ t ∷ ss) (c ∷ cs) =
      Child k s before (some p) c × Wired k (some p) ps (t ∷ ss) cs

  Reads-stage :
      (k : Kernel) (s s' : PipelineStage) (files : List Bytes) (before : Option Pipe)
      → Feeds k files s'.input_fd
      → Reads k files before (stdin_of s' before)
  Reads-stage k s s' [] none h = rw h refl
  Reads-stage k s s' [] (some p) h = rw h refl
  Reads-stage k s s' (f ∷ fs) before (r, fds, e, named, runs) = rw e (r, fds, refl, named, runs)

  one_fd :
      (k : Kernel) (f : OutputFile) (fds : List ℕ)
      → Names k.created fds (f ∷ [])
      → Writes k (f ∷ []) none (elim fds [ [] ↦ none | fd ∷ fds ↦ some fd ])
  unfolding Names
  one_fd k f [] h = absurd h
  one_fd k f (fd ∷ fds) h = (fd, refl, h.0)

  Writes-stage :
      (k : Kernel) (s s' : PipelineStage) (files : List OutputFile) (behind : Option Pipe)
      → s'.output_files ≡ files
      → Names k.created s'.output_fds files
      → Copies k files s'
      → Writes k files behind (stdout_of s' behind)
  unfolding Names
  Writes-stage k s s' [] none e named copied = rw e refl
  Writes-stage k s s' [] (some p) e named copied = rw e refl
  Writes-stage k s s' (f ∷ []) behind e named copied = rw e (one_fd k f s'.output_fds named)
  Writes-stage k s s' (f ∷ g ∷ fs) behind e named (r, piped, runs) =
      rw (e, piped) (r, s'.output_fds, refl, named, runs)

  resolved-Serves :
      (k : Kernel) (s s' : PipelineStage) (before behind : Option Pipe) (r : Option Bytes × Bytes)
      → resolve_command sys (first_word s.argv) ≡ r
      → s'.argv ≡ s.argv
      → Reads k s.input_files before (stdin_of s' before)
      → Writes k s.output_files behind (stdout_of s' behind)
      → Serves k s before behind (resolved_role s' before behind r)
  resolved-Serves k s s' before behind (none, name) e a reads writes =
      inl (refl, inr (ap (λ r. r.0) e))
  resolved-Serves k s s' before behind (some path, name) e a reads writes = inr (
    path,
    name,
    stdin_of s' before,
    stdout_of s' behind,
    e,
    ap (λ argv. execs path (with_name name argv) (stdin_of s' before) (stdout_of s' behind)) a,
    reads,
    writes,
  )

  pub child_role-Serves :
      (k : Kernel) (s s' : PipelineStage) (before behind : Option Pipe)
      → Copied ok k s s'
      → Serves k s before behind (child_role sys s' before behind)
  unfolding child_role
  child_role-Serves k s s' before behind ((a, i, o, io), copies) =
      let found = resolve_command sys (first_word s'.argv) in
      let role : Bool → Role = λ b. if b then exits else resolved_role s' before behind found in
      let Result : Bool → Type 0 = λ b. Serves k s before behind (role b) in
      elim io [
        | inl (e, failed) ↦ subst Result (sym e) (inl (refl, inl failed))
        | inr (fine, feeds, named) ↦ subst Result (sym fine) (
            resolved-Serves k s s' before behind found
              (ap (λ argv. resolve_command sys (first_word argv)) (sym a)) a
              (Reads-stage k s s' s.input_files before feeds)
              (Writes-stage k s s' s.output_files behind o named (copies fine)))
      ]
