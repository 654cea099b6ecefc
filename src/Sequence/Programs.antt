-- ===== src/Sequence/Programs.antt =====
-- Which program a command line runs: the paths that `exec_command` and `exec_background_command` of
-- c-shell/src/command.c try, in order.
use c_shell.Base.{
  ◌≡◌, refl, sym, ◌∙◌, Bool, true, false, not, codes, ◌&&◌, ◌||◌, List, [], ◌∷◌, ◌++◌, map, Option,
  some, none, take, ◌==◌, if◌then◌else◌, Bytes, Bool-cases, inl, inr, arith,
}
use c_shell.Command.Resolve.{
  System, strtok_fields, strchr, is_executable, search_dirs, find_path, resolve_name,
  resolve_command,
}
use c_shell.Command.Exec.{look_up_name, look_up}

abbrev pub has_slash : Bytes → Bool
has_slash [] = false
has_slash (c ∷ cs) = c == b'/' || has_slash cs

abbrev pub percent : Bytes → Bool
percent [] = false
percent (c ∷ cs) = c == b'%'

abbrev pub tail : Bytes → Bytes
tail [] = []
tail (c ∷ cs) = cs

-- The name a command goes by: without the `%` in front, if it has no slash.
abbrev pub name_of : Bytes → Bytes
name_of command = if percent command && not (has_slash command) then tail command else command

module _ (sys : System) where
  -- A regular file that may be executed.
  abbrev pub runs : Bytes → Option Bool → Bool
  runs path none = false
  runs path (some regular) = regular && sys.access path

  abbrev pub runnable : Bytes → Bool
  runnable path = runs path (sys.stat path)

  unfoldable pub first_runnable : List Bytes → Option Bytes
  first_runnable [] = none
  first_runnable (p ∷ ps) = let rest = first_runnable ps in if runnable p then some p else rest

  -- The directories of PATH, if it is set.
  abbrev pub dirs_of : Option Bytes → List Bytes
  dirs_of none = []
  dirs_of (some path) = strtok_fields [] path

  abbrev pub on_path : Bytes → List Bytes
  on_path name = map (λ dir. take 4095 (dir ++ b'/' ∷ name)) (dirs_of sys.path_var)

  -- A command with a slash is the path itself. Another is looked for in the directories of PATH, in
  -- their order, and without a `%` in front in the current directory before.
  abbrev pub program : Bytes → Option Bytes
  program command =
      if has_slash command
      then (if runnable command then some (take 4095 command) else none)
      else if percent command
      then first_runnable (on_path (tail command))
      else first_runnable (take 4095 (codes "./" ++ command) ∷ on_path command)

  executable-runs :
      (p : Bytes) (o : Option Bool)
      → elim o [ none ↦ false | some regular ↦ if not regular then false else sys.access p ]
        ≡ runs p o
  executable-runs p none = refl
  executable-runs p (some true) = refl
  executable-runs p (some false) = refl

  is_executable-runnable : (p : Bytes) → is_executable sys p ≡ runnable p
  unfolding is_executable
  is_executable-runnable p = executable-runs p (sys.stat p)

  search_dirs-first_runnable :
      (name : Bytes) (dirs : List Bytes)
      → search_dirs sys name dirs
        ≡ first_runnable (map (λ dir. take 4095 (dir ++ b'/' ∷ name)) dirs)
  unfolding search_dirs first_runnable
  search_dirs-first_runnable name [] = refl
  search_dirs-first_runnable name (dir ∷ dirs) =
      rw
        (
          is_executable-runnable (take 4095 (dir ++ b'/' ∷ name)),
          search_dirs-first_runnable name dirs,
        )
        refl

  found-first_runnable :
      (name : Bytes) (o : Option Bytes)
      → elim o [ none ↦ none | some path ↦ search_dirs sys name (strtok_fields [] path) ]
        ≡ first_runnable (map (λ dir. take 4095 (dir ++ b'/' ∷ name)) (dirs_of o))
  unfolding first_runnable
  found-first_runnable name none = refl
  found-first_runnable name (some path) = search_dirs-first_runnable name (strtok_fields [] path)

  find_path-first_runnable : (name : Bytes) → find_path sys name ≡ first_runnable (on_path name)
  unfolding find_path
  find_path-first_runnable name = found-first_runnable name sys.path_var

  look_up_name-program :
      (command : Bytes)
      → look_up_name sys command
        ≡ (first_runnable (take 4095 (codes "./" ++ command) ∷ on_path command), command)
  unfolding look_up_name first_runnable
  look_up_name-program command =
      let here = take 4095 (codes "./" ++ command) in
      let same = is_executable-runnable here in
      elim (Bool-cases (runnable here)) [
        | inl e ↦ rw (same, e) refl
        | inr e ↦ rw (same, e, find_path-first_runnable command) refl
      ]

  strchr-has_slash : (cs : Bytes) → strchr cs b'/' ≡ has_slash cs
  unfolding strchr
  strchr-has_slash [] = refl
  strchr-has_slash (c ∷ cs) = rw (strchr-has_slash cs) refl

  pub look_up-program : (command : Bytes) → look_up sys command ≡ (program command, name_of command)
  unfolding look_up
  look_up-program [] = look_up_name-program []
  look_up-program (c ∷ cs) = elim (Bool-cases (has_slash (c ∷ cs))) [
    | inl slash ↦ elim (Bool-cases (runnable (c ∷ cs))) [
      | inl e ↦
          rw (strchr-has_slash (c ∷ cs), slash, is_executable-runnable (c ∷ cs), e) (ground arith)
      | inr e ↦
          rw (strchr-has_slash (c ∷ cs), slash, is_executable-runnable (c ∷ cs), e) (ground arith)
    ]
    | inr plain ↦ elim (Bool-cases (c == b'%')) [
      | inl e ↦ rw (strchr-has_slash (c ∷ cs), plain, e, find_path-first_runnable cs) refl
      | inr e ↦ rw (strchr-has_slash (c ∷ cs), plain, e) (look_up_name-program (c ∷ cs))
    ]
  ]

  look_up-resolve_command : (command : Bytes) → look_up sys command ≡ resolve_command sys command
  unfolding look_up look_up_name resolve_command resolve_name
  look_up-resolve_command [] = refl
  look_up-resolve_command (c ∷ cs) = refl

  pub resolve_command-program :
      (command : Bytes) → resolve_command sys command ≡ (program command, name_of command)
  resolve_command-program command = sym (look_up-resolve_command command) ∙ look_up-program command
