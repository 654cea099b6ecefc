-- ===== src/Hop/Moves.antt =====
-- What `change_dir` and `exec_hop` of c-shell/src/hop.c do to the shell's state, and the path that
-- `get_path` of user_path.c shows.
use c_shell.Base.{
  ℕ, ◌≤◌, ◌≡◌, refl, ◌∙◌, sym, Bool, true, false, List, [], ◌∷◌, ◌++◌, Option, some, none, length,
  ◌==◌, if◌then◌else◌, Bytes, str_eq, str_eq_sound, codes, append-nil, Bool-cases, Option-cases,
  inl, inr, arith,
}
use c_shell.Lexer.{Token}
use c_shell.Frecency.{Entry, find_frecency_match}
use c_shell.Frecency.Record.{IsVisits, find_entry-record_visit, none_past}
use c_shell.Frecency.Load.{load_frecency_lem}
use c_shell.Hop.{
  FileSystem, Shell, read_log, load, no_visits, init_hop, save_frecency, visit, arrive, change_dir,
  or_message, hop_to, hop_one, hop_loop, exec_hop, strip, at_slash, get_path,
}

-- The path that a prompt stands for.
pub expand : Bytes → Bytes → Bytes
expand home_dir [] = []
expand home_dir (c ∷ cs) = if c == b'~' then home_dir ++ cs else c ∷ cs

abbrev Stripped : Bytes → Bytes → Option Bytes → Type 0
Stripped home s none = Unit
Stripped home s (some rest) = s ≡ home ++ rest

strip-Stripped : (home s : Bytes) → Stripped home s (strip home s)
unfolding strip
strip-Stripped [] s = refl
strip-Stripped (c ∷ cs) [] = tt
strip-Stripped (c ∷ cs) (a ∷ s) = ground (arith, strip-Stripped cs s)

expand-shown :
    (home s : Bytes) (o : Option Bytes)
    → Stripped home (b'/' ∷ s) o
    → expand home (elim o [ none ↦ b'/' ∷ s | some rest ↦ at_slash (b'/' ∷ s) rest ]) ≡ b'/' ∷ s
unfolding expand
expand-shown home s none h = refl
expand-shown home s (some []) h = refl
expand-shown home s (some (c ∷ cs)) h = elim (Bool-cases (c == b'/')) [
  | inl slash ↦ rw slash (sym h)
  | inr other ↦ rw other refl
]

-- The path shown in the prompt, with the home directory in the place of its `~`, is the current
-- directory, if that is an absolute path.
pub expand-get_path :
    (home_dir s : Bytes) → expand home_dir (get_path home_dir (b'/' ∷ s)) ≡ b'/' ∷ s
unfolding get_path expand
expand-get_path home_dir s = elim (Bool-cases (str_eq home_dir (b'/' ∷ s))) [
  | inl home ↦ rw home (append-nil home_dir ∙ str_eq_sound home_dir (b'/' ∷ s) home)
  | inr other ↦
      rw other
        (expand-shown home_dir s (strip home_dir (b'/' ∷ s)) (strip-Stripped home_dir (b'/' ∷ s)))
]

no_visits-IsVisits : IsVisits no_visits
no_visits-IsVisits = record { few = omega arith; past = none_past }

loaded : (o : Option (List Entry)) → IsVisits (load no_visits o)
loaded none = no_visits-IsVisits
loaded (some es) = (load_frecency_lem no_visits es no_visits-IsVisits).0

module _ (fs : FileSystem) where
  -- A shell with this home directory whose visits are in order.
  pub record IsShell (home : Bytes) (s : Shell) : Type 0 where
    pub visits_ok : IsVisits s.visits
    pub same_home : s.home_dir ≡ home

  visit-IsShell : (home : Bytes) (s : Shell) → IsShell home s → IsShell home (visit fs s)
  unfolding visit save_frecency
  visit-IsShell home s ok =
      let r = (find_entry-record_visit s.cwd s.cwd s.visits ok.visits_ok).0 in
      record { visits_ok = ground (arith, r); same_home = ground (arith, ok.same_home) }

  arrive-IsShell :
      (home : Bytes) (s : Shell) (o : Option Bytes)
      → IsShell home s
      → IsShell home (arrive fs s o).1
  arrive-IsShell home s none ok = ok
  arrive-IsShell home s (some d) ok =
      let s' : Shell = record s { cwd = d; prev_dir = s.cwd; prev_dir_flag = true } in
      let ok' : IsShell home s' = record { visits_ok = ok.visits_ok; same_home = ok.same_home } in
      elim (Bool-cases (fs.getcwd_ok d)) [
        | inl found ↦ rw found (visit-IsShell home s' ok')
        | inr lost ↦ rw lost ok'
      ]

  change_dir-IsShell :
      (home : Bytes) (s : Shell) (path : Bytes)
      → IsShell home s
      → IsShell home (change_dir fs s path).1
  unfolding change_dir
  change_dir-IsShell home s path ok = elim (Bool-cases (fs.getcwd_ok s.cwd)) [
    | inl found ↦ rw found (arrive-IsShell home s (fs.chdir s.cwd path) ok)
    | inr lost ↦ rw lost ok
  ]

  -- At most one message, and a shell in order.
  abbrev Steps : Bytes → ℕ × Shell → Type 0
  Steps home r = (r.0 ≤ 1) × IsShell home r.1

  or_message-Steps :
      (home : Bytes) (r : Bool × Shell) → IsShell home r.1 → Steps home (or_message r)
  or_message-Steps home (true, s) ok = (omega arith, ok)
  or_message-Steps home (false, s) ok = (omega arith, ok)

  hop_to-Steps :
      (home : Bytes) (r : Bool × Shell) (name : Bytes)
      → IsShell home r.1
      → Steps home (hop_to fs r name)
  hop_to-Steps home (true, s) name ok = (omega arith, ok)
  hop_to-Steps home (false, s) name ok =
      elim (Option-cases (find_frecency_match (fs.access_ok s.cwd) name s.visits.entries)) [
        | inl missed ↦ rw missed (omega arith, ok)
        | inr (path, found) ↦
            rw found
              (or_message-Steps home (change_dir fs s path) (change_dir-IsShell home s path ok))
      ]

  hop_one-Steps :
      (home : Bytes) (s : Shell) (a : Bytes) → IsShell home s → Steps home (hop_one fs s a)
  unfolding hop_one
  hop_one-Steps home s a ok = ground (
    arith,
    ok,
    change_dir-IsShell home s s.home_dir ok,
    change_dir-IsShell home s (codes "..") ok,
    change_dir-IsShell home s s.prev_dir ok,
    hop_to-Steps home (change_dir fs s a) a (change_dir-IsShell home s a ok),
  )

  hop_loop-Steps :
      (home : Bytes) (s : Shell) (ts : List Token)
      → IsShell home s
      → ((hop_loop fs s ts).0 ≤ length ts) × IsShell home (hop_loop fs s ts).1
  unfolding hop_loop
  hop_loop-Steps home s [] ok = (omega arith, ok)
  hop_loop-Steps home s (t ∷ ts) ok =
      let one = hop_one-Steps home s t.value ok in
      let rest = hop_loop-Steps home (hop_one fs s t.value).1 ts one.1 in
      (omega (arith, one.0, rest.0), rest.1)

  exec_hop-Steps :
      (home : Bytes) (s : Shell) (ts : List Token)
      → IsShell home s
      → ((exec_hop fs s ts).0 ≤ length ts) × IsShell home (exec_hop fs s ts).1
  unfolding exec_hop
  exec_hop-Steps home s [] ok = (omega arith, change_dir-IsShell home s s.home_dir ok)
  exec_hop-Steps home s (t ∷ ts) ok = hop_loop-Steps home s (t ∷ ts) ok

  init_hop-IsShell :
      (cwd home : Bytes) (logs : List (Bytes × List Entry)) → IsShell home (init_hop cwd home logs)
  unfolding init_hop
  init_hop-IsShell cwd home logs = record {
    visits_ok = loaded (read_log cwd logs);
    same_home = refl;
  }

  -- The shell behind some `hop` commands.
  pub session : Shell → List (List Token) → Shell
  session s [] = s
  session s (ts ∷ more) = session (exec_hop fs s ts).1 more

  session-IsShell :
      (home : Bytes) (s : Shell) (lines : List (List Token))
      → IsShell home s
      → IsShell home (session s lines)
  unfolding session
  session-IsShell home s [] ok = ok
  session-IsShell home s (ts ∷ more) ok =
      session-IsShell home (exec_hop fs s ts).1 more (exec_hop-Steps home s ts ok).1

  -- From any files `hop.log` and through any `hop` commands there are at most 1000 entries, none visited
  -- later than the counter says, the home directory stays, and the next `hop` prints at most one message
  -- for each of its arguments.
  pub exec_hop-IsShell :
      (cwd home : Bytes) (logs : List (Bytes × List Entry)) (lines : List (List Token))
      (ts : List Token)
      → let s = session (init_hop cwd home logs) lines in
        IsShell home s × ((exec_hop fs s ts).0 ≤ length ts)
  exec_hop-IsShell cwd home logs lines ts =
      let ok =
        session-IsShell home (init_hop cwd home logs) lines (init_hop-IsShell cwd home logs) in
      (ok, (exec_hop-Steps home (session (init_hop cwd home logs) lines) ts ok).0)
