-- ===== src/Command/Resolve.antt =====
-- How a command name becomes the path of a program: `is_executable` of c-shell/src/locate.c,
-- `find_path` and `resolve_command` of c-shell/src/command.c.
use c_shell.Base.{
  ℕ, Bool, true, false, not, ◌||◌, List, [], ◌∷◌, ◌++◌, Option, some, none, take, ◌==◌,
  if◌then◌else◌, Bytes,
}

-- What the system calls answer at one moment: `stat` gives whether the path is a regular file,
-- `access` whether it may be executed, `getenv("PATH")` and `calloc` of some stages.
pub record System : Type 0 where
  pub stat : Bytes → Option Bool
  pub access : Bytes → Bool
  pub path_var : Option Bytes
  pub calloc_ok : ℕ → Bool

-- `snprintf` into a buffer of PATH_MAX bytes.
abbrev pub path_max : ℕ
path_max = 4096

abbrev pub print_path : Bytes → Bytes
print_path p = take 4095 p

-- The fields of a colon-separated text that are not empty, as `strtok` hands them out; `field` is
-- the one being read.
unfoldable pub strtok_fields : Bytes → Bytes → List Bytes
strtok_fields [] [] = []
strtok_fields (f ∷ fs) [] = (f ∷ fs) ∷ []
strtok_fields [] (c ∷ cs) = strtok_fields (if c == b':' then [] else c ∷ []) cs
strtok_fields (f ∷ fs) (c ∷ cs) = elim (c == b':') [
  | true ↦ (f ∷ fs) ∷ strtok_fields [] cs
  | false ↦ strtok_fields (f ∷ (fs ++ c ∷ [])) cs
]

-- `strchr(s, c) != NULL`
unfoldable pub strchr : Bytes → ℕ → Bool
strchr [] c = false
strchr (d ∷ ds) c = d == c || strchr ds c

module _ (sys : System) where
  unfoldable pub is_executable : Bytes → Bool
  is_executable path = elim (sys.stat path) [
    | none ↦ false
    | some regular ↦ if not regular then false else sys.access path
  ]

  -- The loop of `find_path` over the directories.
  unfoldable pub search_dirs : Bytes → List Bytes → Option Bytes
  search_dirs filename [] = none
  search_dirs filename (dir ∷ dirs) =
      let result = print_path (dir ++ (b'/' ∷ filename)) in
      if is_executable result then some result else search_dirs filename dirs

  unfoldable pub find_path : Bytes → Option Bytes
  unfolding search_dirs strtok_fields
  find_path filename = elim sys.path_var [
    | none ↦ none
    | some env_path ↦ search_dirs filename (strtok_fields [] env_path)
  ]

  -- The path, if there is one, and `*argv0`.
  unfoldable pub resolve_name : Bytes → Option Bytes × Bytes
  resolve_name command =
      let path = print_path (b'.' ∷ b'/' ∷ command) in
      if is_executable path then (some path, command) else (find_path command, command)

  unfoldable pub resolve_command : Bytes → Option Bytes × Bytes
  unfolding resolve_name
  resolve_command [] = resolve_name []
  resolve_command (c ∷ cs) =
      if strchr (c ∷ cs) b'/'
      then (if is_executable (c ∷ cs) then (some (print_path (c ∷ cs)), c ∷ cs) else (none, c ∷ cs))
      else if c == b'%'
      then (find_path cs, cs)
      else resolve_name (c ∷ cs)
