-- ===== src/Frecency.antt =====
-- The visited directories of c-shell/src/frecency.c, where a log is the list of the entries that its
-- lines give, with numbers that are not negative. Log models its text.
pub mod Record
pub mod Load
pub mod Best
pub mod Log
pub mod Digits
pub mod Saved
use c_shell.Base.{
  ℕ, zero, suc, ◌+◌, ◌*◌, ◌^◌, ◌%◌, Bool, true, false, not, ◌&&◌, ◌||◌, List, [], ◌∷◌, ◌++◌, Option,
  some, none, length, ltb, leb, ◌==◌, if◌then◌else◌, Bytes, str_eq,
}

-- `struct frecency_entry`
pub record Entry : Type 0 where
  pub path : Bytes
  pub frequency : ℕ
  pub last_visit : ℕ

-- `entries` and `visit_counter`
pub record Visits : Type 0 where
  pub entries : List Entry
  pub visit_counter : ℕ

abbrev pub max_entries : ℕ
max_entries = 1000

abbrev pub read_entry : Visits → Entry → Visits
read_entry v e = record {
  entries = v.entries ++ e ∷ [];
  visit_counter = if ltb v.visit_counter e.last_visit then e.last_visit else v.visit_counter;
}

-- The loop of `load_frecency`, over the entries of the log.
unfoldable pub load_frecency : Visits → List Entry → Visits
load_frecency v [] = v
load_frecency v (e ∷ es) =
    let next = load_frecency (read_entry v e) es in
    if leb max_entries (length v.entries) then v else next

-- The loop of `record_visit`: the first entry with this path is counted up; `none` if there is none.
unfoldable pub visit_again : Bytes → ℕ → List Entry → Option (List Entry)
visit_again path now [] = none
visit_again path now (e ∷ es) =
    let rest = visit_again path now es in
    if str_eq e.path path
    then some (record e { frequency = e.frequency + 1; last_visit = now } ∷ es)
    else elim rest [ none ↦ none | some es' ↦ some (e ∷ es') ]

abbrev pub first_visit : Bytes → ℕ → Entry
first_visit path now = record { path = path; frequency = 1; last_visit = now }

abbrev pub visit_entries : Bytes → Visits → Option (List Entry) → Visits × Bool
visit_entries path v (some es) =
    (record { entries = es; visit_counter = v.visit_counter + 1 }, true)
visit_entries path v none =
    if leb max_entries (length v.entries)
    then (record v { visit_counter = v.visit_counter + 1 }, false)
    else (
      record {
        entries = v.entries ++ first_visit path (v.visit_counter + 1) ∷ [];
        visit_counter = v.visit_counter + 1;
      },
      true,
    )

-- The visits afterwards, and whether `save_frecency` is called.
unfoldable pub record_visit : Bytes → Visits → Visits × Bool
unfolding visit_again
record_visit path v = visit_entries path v (visit_again path (v.visit_counter + 1) v.entries)

unfoldable pub has_prefix : Bytes → Bytes → Bool
has_prefix s [] = true
has_prefix [] (c ∷ cs) = false
has_prefix (a ∷ s) (c ∷ cs) = a == c && has_prefix s cs

-- `strstr(s, name) != NULL`
unfoldable pub contains : Bytes → Bytes → Bool
unfolding has_prefix
contains [] name = has_prefix [] name
contains (a ∷ s) name = has_prefix (a ∷ s) name || contains s name

-- A `long long` in two's complement, held as its distance from -2 ^ 63, which keeps its order.
abbrev pub score : Entry → ℕ
score e = (e.frequency * 1000 + e.last_visit + 2 ^ 63) % 2 ^ 64

-- Whether the loop comes to the score of an entry; `access_ok` tells whether the path exists.
unfoldable pub matches : (Bytes → Bool) → Bytes → Entry → Bool
matches access_ok name e = contains e.path name && access_ok e.path

abbrev pub better : Entry → Option Entry → Bool
better e none = true
better e (some b) = ltb (score b) (score e)

-- The loop of `find_frecency_match`: `best` is the entry at `best_index`, whose score is `best_score`.
unfoldable pub match_loop : (Bytes → Bool) → Bytes → Option Entry → List Entry → Option Entry
unfolding matches
match_loop access_ok name best [] = best
match_loop access_ok name best (e ∷ es) =
    match_loop access_ok name (if matches access_ok name e && better e best then some e else best)
      es

abbrev pub path_of : Option Entry → Option Bytes
path_of none = none
path_of (some e) = some e.path

unfoldable pub find_frecency_match : (Bytes → Bool) → Bytes → List Entry → Option Bytes
unfolding match_loop
find_frecency_match access_ok name es = path_of (match_loop access_ok name none es)
