-- ===== src/Peek/Files.antt =====
-- Options and files: `exec_peak` of c-shell/src/peek.c.
use c_shell.Base.{
  ◌>>=◌, ℕ, Bool, true, false, List, [], ◌∷◌, ◌++◌, Option, some, none, length, leb, ◌==◌,
  if◌then◌else◌, Bytes, str_eq, codes,
}
use c_shell.Lexer.{Token}
use c_shell.Peek.{Item, chars, nums_line, get_line_count, reverse_file, reverse_with_nums}

-- What `stat` and `fopen` answer for a name.
pub data Node : Type 0 where
  missing directory closed : Node
  regular : Bytes → Node

pub record Options : Type 0 where
  pub show_nums : Bool
  pub rever : Bool
  pub files : List Bytes

-- The letters behind a `-`; `none` is an invalid one.
unfoldable pub letters : Bytes → Options → Option Options
letters [] o = some o
letters (c ∷ cs) o =
    let numbered = letters cs record o { show_nums = true } in
    let reversed = letters cs record o { rever = true } in
    if c == b'n' then numbered else if c == b'r' then reversed else none

-- The next input up to its end, of those that standard input gives.
abbrev pub copied : List Bytes → Bytes
copied [] = []
copied (i ∷ is_) = i

abbrev pub left_over : List Bytes → List Bytes
left_over [] = []
left_over (i ∷ is_) = is_

-- How the loop over the tokens ends: with an invalid option, with more names than `files` holds, where
-- the program has no defined behaviour any more, or with the options and the input that is left.
pub data Parsed : Type 0 where
  invalid overflow : Parsed
  parsed : Options → List Bytes → Parsed

-- `files[100]`
abbrev pub max_files : ℕ
max_files = 100

abbrev pub starts_dash : Bytes → Bool
starts_dash [] = false
starts_dash (c ∷ cs) = c == b'-'

abbrev pub behind_first : Bytes → Bytes
behind_first [] = []
behind_first (c ∷ cs) = cs

-- The loop over the tokens, where `-` prints the next input at once, with the output so far.
unfoldable pub options_loop : List Token → Options → List Bytes → List Item → List Item × Parsed
unfolding letters chars
options_loop [] o stdin out = (out, parsed o stdin)
options_loop (t ∷ ts) o stdin out =
    let copying = options_loop ts o (left_over stdin) (out ++ chars (copied stdin)) in
    let naming = options_loop ts record o { files = o.files ++ t.value ∷ [] } stdin out in
    if str_eq t.value (codes "-")
    then copying
    else if starts_dash t.value
    then elim (letters (behind_first t.value) o) [
      | none ↦ (out ++ chars (codes "peak: invalid syntax"), invalid)
      | some o' ↦ options_loop ts o' stdin out
    ]
    else if leb max_files (length o.files)
    then (out, overflow)
    else naming

-- One file that is open, with the count behind it.
unfoldable pub show_file : Options → Bytes → ℕ → Option (List Item × ℕ)
unfolding nums_line get_line_count reverse_file reverse_with_nums chars
show_file o file count =
    if o.show_nums
    then (if o.rever
        then some (reverse_with_nums file (get_line_count file), count)
        else some (nums_line file count))
    else if o.rever
    then (do items ← reverse_file file; some (items, count))
    else some (chars file, count)

-- The loop over the names, up to the first that cannot be shown.
unfoldable pub files_loop : (Bytes → Node) → Options → List Bytes → ℕ → Option (List Item)
unfolding show_file
files_loop node o [] count = some []
files_loop node o (f ∷ fs) count = elim (node f) [
  | missing ↦ some (chars (codes "peek: no such file or directory\n"))
  | directory ↦ some (chars (codes "peek: is a directory\n"))
  | closed ↦ some (chars (codes "peek: no such file or directory\n"))
  | regular file ↦ do
    shown ← show_file o file count
    rest ← files_loop node o fs shown.1
    some (shown.0 ++ rest)
]

abbrev pub no_options : Options
no_options = record { show_nums = false; rever = false; files = [] }

-- Behind the loop over the tokens.
abbrev pub show_parsed : (Bytes → Node) → List Item × Parsed → Option (List Item)
show_parsed node (out, invalid) = some out
show_parsed node (out, overflow) = none
show_parsed node (out, parsed o stdin) = elim o.files [
  | [] ↦ some (out ++ chars (copied stdin))
  | f ∷ fs ↦ do rest ← files_loop node o o.files 0; some (out ++ rest)
]

-- `peek` with the tokens behind its name, the files by their names, and the inputs that the reads of
-- standard input give, each up to its end; `none` is no defined behaviour.
unfoldable pub exec_peak : (Bytes → Node) → List Bytes → List Token → Option (List Item)
unfolding options_loop files_loop
exec_peak node stdin ts = show_parsed node (options_loop ts no_options stdin [])
