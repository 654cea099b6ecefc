-- ===== src/Locate.antt =====
-- The `locate` command: c-shell/src/locate.c, where `is_executable` is that of Command.Resolve.
pub mod Found
use c_shell.Base.{
  ◌>>=◌, ℕ, ◌+◌, Bool, true, false, List, [], ◌∷◌, ◌++◌, Option, some, none, leb, length, ◌==◌,
  if◌then◌else◌, Bytes, map,
}
use c_shell.Lexer.{Token}
use c_shell.Command.Resolve.{System, path_max, strtok_fields, is_executable}

-- A line that is printed.
pub data Line : Type 0 where
  found : Bytes → Line
  not_found : Bytes → Line

abbrev pub is_absolute : Bytes → Bool
is_absolute [] = false
is_absolute (c ∷ cs) = c == b'/'

-- The path, if it is executable.
unfoldable pub reported : System → Bytes → List Bytes
unfolding is_executable
reported sys path = if is_executable sys path then path ∷ [] else []

module _ (sys : System) (getcwd : Option Bytes) where
  unfoldable pub search_current_directory : Bytes → List Bytes
  unfolding reported
  search_current_directory filename = elim getcwd [
    | none ↦ []
    | some cwd ↦
        if leb path_max (length cwd + length filename + 2)
        then []
        else reported sys (cwd ++ b'/' ∷ filename)
  ]

  -- The directory of PATH, with the file name, below the current directory unless it is absolute.
  unfoldable pub search_relative : Bytes → Bytes → Option Bytes → List Bytes
  unfolding reported
  search_relative filename dir none = []
  search_relative filename dir (some cwd) =
      if leb path_max (length cwd + length dir + length filename + 3)
      then []
      else reported sys (cwd ++ b'/' ∷ (dir ++ b'/' ∷ filename))

  unfoldable pub search_dir : Bytes → Bytes → List Bytes
  unfolding search_relative
  search_dir filename dir =
      if is_absolute dir
      then (if leb path_max (length dir + length filename + 2)
          then []
          else reported sys (dir ++ b'/' ∷ filename))
      else search_relative filename dir getcwd

  unfoldable pub path_loop : Bytes → List Bytes → List Bytes
  unfolding search_dir
  path_loop filename [] = []
  path_loop filename (dir ∷ dirs) = search_dir filename dir ++ path_loop filename dirs

  -- `none` where PATH runs over the end of `path_copy`.
  abbrev pub search_fields : Bytes → Option Bytes → Option (List Bytes)
  unfolding path_loop strtok_fields
  search_fields filename none = some []
  search_fields filename (some path) =
      if leb path_max (length path) then none else some (path_loop filename (strtok_fields [] path))

  unfoldable pub search_path : Bytes → Option (List Bytes)
  unfolding search_fields
  search_path filename = search_fields filename sys.path_var

  abbrev pub report : Bytes → List Bytes → List Line
  report filename [] = not_found filename ∷ []
  report filename (p ∷ ps) = map found (p ∷ ps)

  unfoldable pub locate_loop : List Token → Option (List Line)
  unfolding search_current_directory search_path
  locate_loop [] = some []
  locate_loop (t ∷ ts) = do
    ps ← search_path t.value
    rest ← locate_loop ts
    some (report t.value (search_current_directory t.value ++ ps) ++ rest)

-- How `locate` ends; `printed none` is no defined behaviour.
pub data Located : Type 0 where
  invalid_syntax : Located
  printed : Option (List Line) → Located

unfoldable pub exec_locate : System → Option Bytes → List Token → Located
unfolding locate_loop
exec_locate sys getcwd [] = invalid_syntax
exec_locate sys getcwd (t ∷ ts) = printed (locate_loop sys getcwd (t ∷ ts))
