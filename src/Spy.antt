-- ===== src/Spy.antt =====
-- The `spy` command: c-shell/src/spy.c.
pub mod Mapped
use c_shell.Base.{
  ◌>>=◌, ℕ, zero, suc, Bool, true, false, ◌&&◌, ◌||◌, List, [], ◌∷◌, ◌++◌, Option, some, none, take,
  reverse, length, ltb, ◌==◌, if◌then◌else◌, Bytes, str_eq, codes,
}
use c_shell.Lexer.{Token}
use c_shell.Numbers.{ℤ, strtol}
use c_shell.Snoop.Trace.{is_all_digits, pid_of}

-- The type that `stat` gives, as `get_type_str` names it.
pub data FileType : Type 0 where
  reg dir chr blk fifo lnk sock unknown : FileType

-- A row of the table: the label, the type and the path, behind the process id.
pub record Row : Type 0 where
  pub pid : ℤ
  pub fd_label : Bytes
  pub type : FileType
  pub path : Bytes

-- What the system answers: the shell's own id, whether there is a directory of a process under /proc,
-- its links `cwd` and `exe`, the lines that `fgets` reads of its `maps`, the names in its `fd` with
-- what they link to, and `stat` of a path.
pub record ProcFs : Type 0 where
  pub getpid : ℤ
  pub exists : ℤ → Bool
  pub cwd : ℤ → Option Bytes
  pub exe : ℤ → Option Bytes
  pub maps : ℤ → Option (List Bytes)
  pub fds : ℤ → Option (List (Bytes × Option Bytes))
  pub stat : Bytes → Option FileType

-- `readlink` into a buffer of 4096 bytes.
abbrev pub resolved : Bytes → Bytes
resolved path = take 4095 path

-- `strchr(line, '/')`; without one there is no path.
unfoldable pub from_slash : Bytes → Bytes
from_slash [] = []
from_slash (c ∷ cs) = let rest = from_slash cs in if c == b'/' then c ∷ cs else rest

abbrev pub is_line_end : ℕ → Bool
is_line_end c = (c == b'\n') || (c == b'\r')

unfoldable pub skip_ends : Bytes → Bytes
skip_ends [] = []
skip_ends (c ∷ cs) = let rest = skip_ends cs in if is_line_end c then rest else c ∷ cs

-- The path in a line of `maps`, without the newlines behind it.
unfoldable pub map_path : Bytes → Bytes
unfolding from_slash skip_ends
map_path line = reverse (skip_ends (reverse (from_slash line)))

unfoldable pub is_seen : Bytes → List Bytes → Bool
is_seen path [] = false
is_seen path (s ∷ ss) = str_eq s path || is_seen path ss

-- `MAX_MEM_PATHS`
abbrev pub max_mem_paths : ℕ
max_mem_paths = 512

module _ (proc : ProcFs) (pid : ℤ) where
  unfoldable pub print_entry : Bytes → Bytes → List Row
  print_entry fd_label path = elim (proc.stat path) [
    | none ↦ []
    | some type ↦ record { pid = pid; fd_label = fd_label; type = type; path = path } ∷ []
  ]

  unfoldable pub print_symlink_entry : Option Bytes → Bytes → List Row
  unfolding print_entry
  print_symlink_entry none fd_label = []
  print_symlink_entry (some target) fd_label = print_entry fd_label (resolved target)

  abbrev pub remember : Bytes → List Bytes → List Bytes
  remember path seen = if ltb (length seen) max_mem_paths then seen ++ path ∷ [] else seen

  -- A line with this path, and what follows if it is without a path or seen, and if not.
  unfoldable pub mem_line : Bytes → List Bytes → List Row → List Row → List Row
  unfolding print_entry is_seen
  mem_line [] seen again fresh = again
  mem_line (c ∷ cs) seen again fresh =
      if is_seen (c ∷ cs) seen then again else print_entry (codes "mem") (c ∷ cs) ++ fresh

  unfoldable pub mem_loop : List Bytes → List Bytes → List Row
  unfolding mem_line map_path
  mem_loop seen [] = []
  mem_loop seen (l ∷ ls) =
      let path = map_path l in
      mem_line path seen (mem_loop seen ls) (mem_loop (remember path seen) ls)

  unfoldable pub maps_opened : Option (List Bytes) → List Row
  unfolding mem_loop
  maps_opened none = []
  maps_opened (some ls) = mem_loop [] ls

  unfoldable pub print_mem_entries : List Row
  unfolding maps_opened
  print_mem_entries = maps_opened (proc.maps pid)

  unfoldable pub fd_loop : List (Bytes × Option Bytes) → List Row
  unfolding print_symlink_entry is_all_digits
  fd_loop [] = []
  fd_loop ((name, target) ∷ es) =
      let rest = fd_loop es in
      if is_all_digits name then print_symlink_entry target name ++ rest else rest

  unfoldable pub print_fd_entries : List Row
  unfolding fd_loop
  print_fd_entries = elim (proc.fds pid) [ none ↦ [] | some es ↦ fd_loop es ]

-- How `spy` ends: a message, or the rows under the heading.
pub data Spied : Type 0 where
  invalid_syntax no_such_process : Spied
  rows : List Row → Spied

unfoldable pub spy_pid : ProcFs → ℤ → Spied
unfolding print_symlink_entry print_mem_entries print_fd_entries
spy_pid proc pid =
    if proc.exists pid
    then rows (
        ((print_symlink_entry proc pid (proc.cwd pid) (codes "cwd")
            ++ print_symlink_entry proc pid (proc.exe pid) (codes "txt"))
          ++ print_mem_entries proc pid)
        ++ print_fd_entries proc pid)
    else no_such_process

-- The tokens behind `spy`.
unfoldable pub exec_spy : ProcFs → List Token → Spied
unfolding spy_pid is_all_digits
exec_spy proc [] = spy_pid proc proc.getpid
exec_spy proc (t ∷ []) =
    if is_all_digits t.value then spy_pid proc (pid_of (strtol t.value).0) else invalid_syntax
exec_spy proc (t ∷ u ∷ us) = invalid_syntax
