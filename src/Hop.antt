-- ===== src/Hop.antt =====
-- The `hop` command and the path in the prompt: c-shell/src/hop.c and user_path.c. A directory is named
-- by its absolute path.
pub mod Moves
pub mod Back
use c_shell.Base.{
  ℕ, zero, suc, ◌+◌, Bool, true, false, not, ◌&&◌, List, [], ◌∷◌, ◌++◌, Option, some, none, ◌==◌,
  if◌then◌else◌, Bytes, str_eq, codes,
}
use c_shell.Lexer.{Token}
use c_shell.Frecency.{Entry, Visits, load_frecency, record_visit, find_frecency_match}

-- What the file system answers: whether `getcwd` finds the path of the current directory; the
-- directory that `chdir` leads to from another one; whether `access` finds a path; and whether `fopen`
-- can write `hop.log` in a directory.
pub record FileSystem : Type 0 where
  pub getcwd_ok : Bytes → Bool
  pub chdir : Bytes → Bytes → Option Bytes
  pub access_ok : Bytes → Bytes → Bool
  pub writable : Bytes → Bool

-- The current directory, the variables of hop.c, the visited directories, and the files `hop.log` by
-- the directory they stand in, the latest first.
pub record Shell : Type 0 where
  pub cwd : Bytes
  pub home_dir : Bytes
  pub prev_dir : Bytes
  pub prev_dir_flag : Bool
  pub visits : Visits
  pub logs : List (Bytes × List Entry)

-- The file `hop.log` in a directory.
unfoldable pub read_log : Bytes → List (Bytes × List Entry) → Option (List Entry)
read_log dir [] = none
read_log dir ((d, es) ∷ logs) = if str_eq d dir then some es else read_log dir logs

abbrev pub load : Visits → Option (List Entry) → Visits
load v none = v
load v (some es) = load_frecency v es

abbrev pub no_visits : Visits
no_visits = record { entries = []; visit_counter = 0 }

-- The shell as it starts in a directory with these files.
unfoldable pub init_hop : Bytes → Bytes → List (Bytes × List Entry) → Shell
unfolding read_log load_frecency
init_hop cwd home_dir_path logs = record {
  cwd = cwd;
  home_dir = home_dir_path;
  prev_dir = [];
  prev_dir_flag = false;
  visits = load no_visits (read_log cwd logs);
  logs = logs;
}

-- `fopen("hop.log", "w")` is relative to the current directory.
unfoldable pub save_frecency : FileSystem → Shell → Shell
save_frecency fs s =
    if fs.writable s.cwd then record s { logs = (s.cwd, s.visits.entries) ∷ s.logs } else s

-- `record_visit` with its save.
unfoldable pub visit : FileSystem → Shell → Shell
unfolding record_visit save_frecency
visit fs s =
    let r = record_visit s.cwd s.visits in
    let s' : Shell = record s { visits = r.0 } in if r.1 then save_frecency fs s' else s'

abbrev pub arrive : FileSystem → Shell → Option Bytes → Bool × Shell
arrive fs s none = (false, s)
arrive fs s (some new_wd) =
    let s' : Shell = record s { cwd = new_wd; prev_dir = s.cwd; prev_dir_flag = true } in
    (true, if fs.getcwd_ok new_wd then visit fs s' else s')

unfoldable pub change_dir : FileSystem → Shell → Bytes → Bool × Shell
unfolding visit
change_dir fs s path = if fs.getcwd_ok s.cwd then arrive fs s (fs.chdir s.cwd path) else (false, s)

-- Behind a `change_dir` whose failure prints the message: the number of messages printed.
abbrev pub or_message : Bool × Shell → ℕ × Shell
or_message (true, s) = (0, s)
or_message (false, s) = (1, s)

abbrev pub hop_match : FileSystem → Shell → Option Bytes → ℕ × Shell
hop_match fs s none = (1, s)
hop_match fs s (some result) = or_message (change_dir fs s result)

-- The last branch: a directory, or the best match among those visited.
abbrev pub hop_to : FileSystem → Bool × Shell → Bytes → ℕ × Shell
hop_to fs (true, s) name = (0, s)
hop_to fs (false, s) name =
    hop_match fs s (find_frecency_match (fs.access_ok s.cwd) name s.visits.entries)

-- One argument. The messages of the branches that ignore what `change_dir` returns are none.
unfoldable pub hop_one : FileSystem → Shell → Bytes → ℕ × Shell
unfolding change_dir find_frecency_match
hop_one fs s a =
    if str_eq a (codes "~")
    then (0, (change_dir fs s s.home_dir).1)
    else if str_eq a (codes ".")
    then (0, s)
    else if str_eq a (codes "..")
    then (0, (change_dir fs s (codes "..")).1)
    else if str_eq a (codes "-")
    then (if s.prev_dir_flag then (0, (change_dir fs s s.prev_dir).1) else (0, s))
    else hop_to fs (change_dir fs s a) a

-- The loop over the tokens behind `hop`.
unfoldable pub hop_loop : FileSystem → Shell → List Token → ℕ × Shell
unfolding hop_one
hop_loop fs s [] = (0, s)
hop_loop fs s (t ∷ ts) =
    let one = hop_one fs s t.value in let rest = hop_loop fs one.1 ts in (one.0 + rest.0, rest.1)

unfoldable pub exec_hop : FileSystem → Shell → List Token → ℕ × Shell
unfolding hop_loop
exec_hop fs s [] = (0, (change_dir fs s s.home_dir).1)
exec_hop fs s (t ∷ ts) = hop_loop fs s (t ∷ ts)

-- `curr_dir + home_len` where `strncmp(home_dir, curr_dir, home_len) == 0`; `none` where not.
unfoldable pub strip : Bytes → Bytes → Option Bytes
strip [] s = some s
strip (c ∷ cs) [] = none
strip (c ∷ cs) (a ∷ s) = let rest = strip cs s in if c == a then rest else none

abbrev pub at_slash : Bytes → Bytes → Bytes
at_slash curr_dir [] = curr_dir
at_slash curr_dir (c ∷ cs) = if c == b'/' then codes "~" ++ c ∷ cs else curr_dir

unfoldable pub get_path : Bytes → Bytes → Bytes
unfolding strip
get_path home_dir curr_dir =
    if str_eq home_dir curr_dir
    then codes "~"
    else elim (strip home_dir curr_dir) [ none ↦ curr_dir | some rest ↦ at_slash curr_dir rest ]
