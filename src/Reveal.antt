-- ===== src/Reveal.antt =====
-- The `reveal` command: c-shell/src/reveal.c. The memory that it asks for is taken to be given.
pub mod Listing
pub mod Trees
use c_shell.Base.{
  ◌>>=◌, ℕ, zero, suc, Bool, true, false, not, ◌&&◌, ◌||◌, List, [], ◌∷◌, ◌++◌, Option, some, none,
  take, ◌==◌, if◌then◌else◌, Bytes, str_eq, codes,
}
use c_shell.Lexer.{Token}
use c_shell.Hop.{Shell}
use c_shell.Sorting.{qsort, str_le}

-- What `opendir` and `readdir` give of a path, and `stat`: whether it is a directory.
pub record Directories : Type 0 where
  pub opendir : Bytes → Option (List Bytes)
  pub stat : Bytes → Option Bool

-- `compare(a, b) <= 0`
abbrev pub compare_names : Bytes → Bytes → Bool
compare_names a b = str_le a b

abbrev pub is_hidden : Bytes → Bool
is_hidden [] = false
is_hidden (c ∷ cs) = c == b'.'

-- `.` and `..`, which the recursion leaves out.
abbrev pub is_dots : Bytes → Bool
is_dots name = str_eq name (codes ".") || str_eq name (codes "..")

-- The names that the loop over `readdir` keeps.
unfoldable pub kept : (Bytes → Bool) → List Bytes → List Bytes
kept skip [] = []
kept skip (e ∷ es) = let rest = kept skip es in if skip e then rest else e ∷ rest

-- Without recursion, and with it.
abbrev pub skips : Bool → Bytes → Bool
skips show_all e = not show_all && is_hidden e

abbrev pub skips_below : Bool → Bytes → Bool
skips_below show_all e = (not show_all && is_hidden e) || is_dots e

unfoldable pub sorted : (Bytes → Bool) → List Bytes → List Bytes
unfolding kept qsort
sorted skip es = qsort compare_names (kept skip es)

-- `sizeof(full_path) - 1`
abbrev pub path_room : ℕ
path_room = 4095

-- `snprintf` of `"%s/%s"` into a buffer of 4096 bytes.
unfoldable pub joined : Bytes → Bytes → Bytes
joined path name = take path_room (path ++ b'/' ∷ name)

unfoldable pub displayed : Bytes → Bytes → Bytes
unfolding joined
displayed [] name = take path_room name
displayed (c ∷ cs) name = joined (c ∷ cs) name

-- The lines printed for an entry, by what `stat` answers of it; `below` lists a directory.
unfoldable pub entry_lines :
    (Bytes → Bytes → Option (List Bytes)) → Bytes → Bytes → Option Bool → Option (List Bytes)
entry_lines below full shown none = some []
entry_lines below full shown (some false) = some (shown ∷ [])
entry_lines below full shown (some true) = do
  lines ← below full shown
  some ((shown ++ b'/' ∷ []) ∷ lines)

unfoldable pub reveal_entries :
    Directories
    → (Bytes → Bytes → Option (List Bytes))
    → Bytes
    → Bytes
    → List Bytes
    → Option (List Bytes)
unfolding entry_lines joined displayed
reveal_entries fs below path display [] = some []
reveal_entries fs below path display (e ∷ es) = do
  let full = joined path e
  lines ← entry_lines below full (displayed display e) (fs.stat full)
  rest ← reveal_entries fs below path display es
  some (lines ++ rest)

abbrev pub if_opened :
    Option (List Bytes) → (List Bytes → Option (List Bytes)) → Option (List Bytes)
if_opened none k = some []
if_opened (some es) k = k es

-- The lines printed for a directory and those below it; `none` is a walk that goes deeper than `fuel`
-- directories.
unfoldable pub reveal_directory : Directories → Bool → ℕ → Bytes → Bytes → Option (List Bytes)
unfolding reveal_entries sorted
reveal_directory fs all zero path display = none
reveal_directory fs all (suc fuel) path display = if_opened (fs.opendir path) (λ es.
    reveal_entries fs (reveal_directory fs all fuel) path display (sorted (skips_below all) es))

pub record Request : Type 0 where
  pub show_all : Bool
  pub recursive : Bool
  pub path : Option Bytes

-- The letters behind a `-`; `none` is an invalid one.
unfoldable pub letters : Bytes → Request → Option Request
letters [] r = some r
letters (c ∷ cs) r =
    let all = letters cs record r { show_all = true } in
    let deep = letters cs record r { recursive = true } in
    if c == b'a' then all else if c == b't' then deep else none

abbrev pub first_path : Bytes → Request → Option Request
first_path v r = elim r.path [ none ↦ some record r { path = some v } | some p ↦ none ]

-- A token: options, or the one path.
unfoldable pub reveal_token : Bytes → Request → Option Request
unfolding letters
reveal_token [] r = first_path [] r
reveal_token (c ∷ cs) r =
    let options = letters cs r in
    let named = first_path (c ∷ cs) r in if c == b'-' then options else named

-- The tokens behind `reveal`; `none` is the invalid syntax.
unfoldable pub parse_reveal : List Token → Request → Option Request
unfolding reveal_token
parse_reveal [] r = some r
parse_reveal (t ∷ ts) r = do r' ← reveal_token t.value r; parse_reveal ts r'

-- `none` where there is no directory before.
unfoldable pub resolve_path : Shell → Bytes → Option Bytes
resolve_path s path =
    if str_eq path (codes "~")
    then some s.home_dir
    else if str_eq path (codes "-")
    then (if s.prev_dir_flag then some s.prev_dir else none)
    else some path

abbrev pub path_or_dot : Option Bytes → Bytes
path_or_dot none = codes "."
path_or_dot (some p) = p

-- How `reveal` ends: a message, or the lines that it prints, where `none` is a walk that goes deeper
-- than its fuel.
pub data Revealed : Type 0 where
  invalid_syntax no_such_directory : Revealed
  lines : Option (List Bytes) → Revealed

-- Behind the checks of the path, whose directory has these entries.
unfoldable pub reveal_path : Directories → ℕ → Request → Bytes → List Bytes → Revealed
unfolding reveal_directory sorted
reveal_path fs fuel r path es =
    if r.recursive
    then (if str_eq path (codes ".")
        then lines (reveal_directory fs r.show_all fuel path [])
        else lines (reveal_directory fs r.show_all fuel path path))
    else lines (some (sorted (skips r.show_all) es))

-- Behind `resolve_path`.
unfoldable pub opened : Directories → ℕ → Request → Bytes → Option (List Bytes) → Revealed
unfolding reveal_path
opened fs fuel r path none = no_such_directory
opened fs fuel r path (some es) = reveal_path fs fuel r path es

unfoldable pub resolved : Directories → ℕ → Request → Option Bytes → Revealed
unfolding opened
resolved fs fuel r none = no_such_directory
resolved fs fuel r (some path) = opened fs fuel r path (fs.opendir path)

unfoldable pub parsed : Directories → ℕ → Shell → Option Request → Revealed
unfolding resolve_path resolved
parsed fs fuel s none = invalid_syntax
parsed fs fuel s (some r) = resolved fs fuel r (resolve_path s (path_or_dot r.path))

abbrev pub no_request : Request
no_request = record { show_all = false; recursive = false; path = none }

unfoldable pub exec_reveal : Directories → ℕ → Shell → List Token → Revealed
unfolding parse_reveal parsed
exec_reveal fs fuel s ts = parsed fs fuel s (parse_reveal ts no_request)
