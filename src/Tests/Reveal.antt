-- ===== src/Tests/Reveal.antt =====
-- `reveal` on a small tree of directories.
use c_shell.Base.{
  ◌≡◌, refl, true, false, List, [], ◌∷◌, some, none, Bytes, if◌then◌else◌, str_eq, codes, arith,
}
use mathlib.Core.List.{Perm}
use mathlib.Core.List.Perm
use c_shell.Lexer.{Token}
use c_shell.Ping.Targets.{text}
use c_shell.Hop.{Shell, no_visits}
use c_shell.Sorting.{Heads, IsSorted, str_le}
use c_shell.Reveal.{
  Directories, compare_names, joined, Request, no_request, parse_reveal, resolve_path, lines,
  exec_reveal,
}
use c_shell.Reveal.Listing.{exec_reveal-names}
use c_shell.Reveal.Trees.{
  Stands, plain, branch, Forest, nil, cons, walks, heights, names, Kept, out, stays, Listed,
  Members, exec_reveal-tree,
}

abbrev top : List Bytes
top = codes "src" ∷ codes "." ∷ codes ".git" ∷ codes "README" ∷ codes ".." ∷ []

abbrev below : List Bytes
below = codes ".." ∷ codes "shell.c" ∷ codes "." ∷ []

abbrev tree : Directories
tree = record {
  opendir = λ path.
      if str_eq path (codes "p")
      then some top
      else if str_eq path (codes "p/src")
      then some below
      else none;
  stat = λ path.
      if str_eq path (codes "p/src")
      then some true
      else if str_eq path (codes "p/src/shell.c")
      then some false
      else if str_eq path (codes "p/README")
      then some false
      else none;
}

abbrev home : Shell
home = record {
  cwd = codes "/home";
  home_dir = codes "/home";
  prev_dir = [];
  prev_dir_flag = false;
  visits = no_visits;
  logs = [];
}

abbrev forest : Forest
forest =
    cons (codes "README") plain (cons (codes "src") (branch (cons (codes "shell.c") plain nil)) nil)

abbrev flat : List Token
flat = text (codes "p") ∷ text (codes "-a") ∷ []

abbrev deep : List Token
deep = text (codes "-t") ∷ text (codes "p") ∷ []

abbrev flat_request : Request
flat_request = record { show_all = true; recursive = false; path = some (codes "p") }

abbrev deep_request : Request
deep_request = record { show_all = false; recursive = true; path = some (codes "p") }

walk_shown :
    exec_reveal tree 2 home deep
    ≡ lines (some (codes "p/README" ∷ codes "p/src/" ∷ codes "p/src/shell.c" ∷ []))
unfolding exec_reveal str_eq str_le
walk_shown = refl

flat_parsed : parse_reveal flat no_request ≡ some flat_request
unfolding parse_reveal
flat_parsed = refl

deep_parsed : parse_reveal deep no_request ≡ some deep_request
unfolding parse_reveal
deep_parsed = refl

p_resolved : resolve_path home (codes "p") ≡ some (codes "p")
unfolding resolve_path str_eq
p_resolved = refl

p_opened : tree.opendir (codes "p") ≡ some top
unfolding str_eq
p_opened = refl

exec_reveal-names_example :
    (ns : List Bytes) × (ls : List Bytes) × (exec_reveal tree 0 home flat ≡ lines (some ls))
    × (ns ≡ top)
    × Perm ns ls
    × IsSorted compare_names ls
exec_reveal-names_example =
    exec_reveal-names tree 0 home flat flat_request (codes "p") top flat_parsed refl p_resolved
      p_opened

top-Kept : Kept false top (codes "src" ∷ codes "README" ∷ [])
top-Kept =
    stays (λ d. cc)
      (out ([], refl)
        (out (codes "git", refl) (stays (λ d. cc) (out (codes ".", refl) Kept.none_left))))

below-Kept : Kept false below (codes "shell.c" ∷ [])
below-Kept = out (codes ".", refl) (stays (λ d. cc) (out ([], refl) Kept.none_left))

top-IsSorted : IsSorted compare_names (codes "README" ∷ codes "src" ∷ [])
unfolding IsSorted Heads str_le
top-IsSorted = ((refl, tt), (tt, tt))

below-IsSorted : IsSorted compare_names (codes "shell.c" ∷ [])
unfolding IsSorted Heads
below-IsSorted = (tt, tt)

forest-Listed : Listed tree false (codes "p") forest
unfolding names
forest-Listed = (
  top,
  codes "src" ∷ codes "README" ∷ [],
  p_opened,
  top-Kept,
  Perm.swap (codes "README") (codes "src") [],
  top-IsSorted,
)

shell-Listed : Listed tree false (codes "p/src") (cons (codes "shell.c") plain nil)
unfolding names str_eq
shell-Listed = (below, codes "shell.c" ∷ [], refl, below-Kept, Perm.rfl, below-IsSorted)

forest-Members : Members tree false (codes "p") forest
unfolding Stands joined str_eq
forest-Members = (refl, ((refl, shell-Listed, (refl, tt)), tt))

exec_reveal-tree_example :
    exec_reveal tree 2 home deep
    ≡ lines (some (walks (if str_eq (codes "p") (codes ".") then [] else codes "p") forest))
unfolding heights
exec_reveal-tree_example =
    exec_reveal-tree tree 2 home deep deep_request (codes "p") forest deep_parsed refl p_resolved
      forest-Listed forest-Members (omega arith)
