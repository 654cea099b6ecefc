-- ===== src/Frecency/Record.antt =====
-- What `record_visit` of c-shell/src/frecency.c do to the visited directories.
use c_shell.Base.{
  ℕ, ◌+◌, ◌≤◌, ◌≡◌, refl, Bool, true, false, List, [], ◌∷◌, ◌++◌, Option, some, none, length,
  length-append, leb, if◌then◌else◌, Bytes, str_eq, str_eq_sound, str_eq_refl, ◌≢◌, arith,
  Bool-cases, inl, inr,
}
use c_shell.Frecency.{
  Entry, Visits, max_entries, visit_again, first_visit, visit_entries, record_visit,
}

-- The entry with this path.
pub find_entry : Bytes → List Entry → Option Entry
find_entry path [] = none
find_entry path (e ∷ es) = if str_eq e.path path then some e else find_entry path es

pub Within : ℕ → List Entry → Type 0
Within now [] = Unit
Within now (e ∷ es) = (e.last_visit ≤ now) × Within now es

pub none_past : Within 0 []
unfolding Within
none_past = tt

-- At most 1000 entries, none of them visited later than the counter says.
pub record IsVisits (v : Visits) : Type 0 where
  pub few : length v.entries ≤ max_entries
  pub past : Within v.visit_counter v.entries

-- The entry of the visited path, if it had one, and if it had none and a place is free.
abbrev again : ℕ → Option Entry → Option Entry
again now none = none
again now (some e) = some (record e { frequency = e.frequency + 1; last_visit = now })

abbrev pub visited : Bytes → Visits → Option Entry → Option Entry
visited path v (some e) = again (v.visit_counter + 1) (some e)
visited path v none =
    if leb max_entries (length v.entries)
    then none
    else some (first_visit path (v.visit_counter + 1))

-- What `visit_again` does to the entries, as they are found.
abbrev Again : Bytes → ℕ → Bytes → List Entry → Option (List Entry) → Type 0
Again path now q es none = find_entry path es ≡ none
Again path now q es (some es') =
    (length es' ≡ length es)
    × (find_entry q es' ≡ (if str_eq path q then again now (find_entry q es) else find_entry q es))
    × (find_entry path es ≢ none)

visit_again-Again :
    (path : Bytes) (now : ℕ) (q : Bytes) (es : List Entry)
    → Again path now q es (visit_again path now es)
unfolding visit_again find_entry
visit_again-Again path now q [] = refl
visit_again-Again path now q (e ∷ es) = ground (
  arith,
  visit_again-Again path now q es,
  str_eq_sound e.path path,
  str_eq_sound e.path q,
  str_eq_sound path q,
  str_eq_refl path,
)

pub Within-le : (a b : ℕ) (es : List Entry) → a ≤ b → Within a es → Within b es
unfolding Within
Within-le a b [] h w = tt
Within-le a b (e ∷ es) h w = (omega (arith, w.0), Within-le a b es h w.1)

pub Within-append :
    (now : ℕ) (es : List Entry) (e : Entry)
    → Within now es
    → e.last_visit ≤ now
    → Within now (es ++ e ∷ [])
unfolding Within
Within-append now [] e w h = (h, tt)
Within-append now (d ∷ es) e w h = (w.0, Within-append now es e w.1 h)

abbrev AgainWithin : ℕ → Option (List Entry) → Type 0
AgainWithin now none = Unit
AgainWithin now (some es) = Within now es

visit_again-Within :
    (path : Bytes) (now : ℕ) (es : List Entry)
    → Within now es
    → AgainWithin now (visit_again path now es)
unfolding visit_again Within
visit_again-Within path now [] w = tt
visit_again-Within path now (e ∷ es) w =
    ground (arith, visit_again-Within path now es w.1, w.0, w.1)

find_entry-append :
    (q : Bytes) (es : List Entry) (e : Entry)
    → find_entry q (es ++ e ∷ [])
      ≡ elim (find_entry q es) [ none ↦ if str_eq e.path q then some e else none | some x ↦ some x ]
unfolding find_entry
find_entry-append q [] e = refl
find_entry-append q (d ∷ es) e = ground (arith, find_entry-append q es e)

abbrev pub is_found : Option Entry → Bool
is_found none = false
is_found (some e) = true

-- What `record_visit` comes to, on the result of its loop.
visit_entries-find :
    (path q : Bytes) (v : Visits) (o : Option (List Entry))
    → Again path (v.visit_counter + 1) q v.entries o
    → Again path (v.visit_counter + 1) path v.entries o
    → let r = visit_entries path v o in
      (find_entry q r.0.entries ≡ (
        if str_eq path q then visited path v (find_entry q v.entries) else find_entry q v.entries))
      × (r.1 ≡ is_found (find_entry path r.0.entries))
visit_entries-find path q v none a b = ground (
  arith,
  a,
  str_eq_sound path q,
  str_eq_refl path,
  find_entry-append q v.entries (first_visit path (v.visit_counter + 1)),
  find_entry-append path v.entries (first_visit path (v.visit_counter + 1)),
)
visit_entries-find path q v (some es) a b =
    ground (arith, a, b, str_eq_sound path q, str_eq_refl path)

visit_entries-IsVisits :
    (path : Bytes) (v : Visits) (o : Option (List Entry))
    → IsVisits v
    → Again path (v.visit_counter + 1) path v.entries o
    → AgainWithin (v.visit_counter + 1) o
    → IsVisits (visit_entries path v o).0
visit_entries-IsVisits path v none ok a w =
    let older = Within-le v.visit_counter (v.visit_counter + 1) v.entries (omega arith) ok.past in
    elim (Bool-cases (leb max_entries (length v.entries))) [
      | inl full ↦ rw full (record { few = ok.few; past = older })
      | inr room ↦ rw room record {
        few =
            ground
              (arith, room, length-append v.entries (first_visit path (v.visit_counter + 1) ∷ []));
        past = Within-append _ v.entries (first_visit path _) older (omega arith);
      }
    ]
visit_entries-IsVisits path v (some es) ok a w = record {
  few = omega (arith, a.0, ok.few);
  past = w;
}

visit_entries-counter :
    (path : Bytes) (v : Visits) (o : Option (List Entry))
    → (visit_entries path v o).0.visit_counter ≡ v.visit_counter + 1
visit_entries-counter path v none = ground arith
visit_entries-counter path v (some es) = refl

-- Recording a visit keeps at most 1000 entries with no visit later than the counter. The path's entry
-- is counted up and becomes the latest, or is added if there was none and a place is free; every
-- other path's entry stays. The log is saved exactly if the path has an entry afterwards.
pub find_entry-record_visit :
    (path q : Bytes) (v : Visits)
    → IsVisits v
    → let r = record_visit path v in
      IsVisits r.0
      × (r.0.visit_counter ≡ v.visit_counter + 1)
      × (find_entry q r.0.entries ≡ (
          if str_eq path q
          then visited path v (find_entry q v.entries)
          else find_entry q v.entries))
      × (r.1 ≡ is_found (find_entry path r.0.entries))
unfolding record_visit
find_entry-record_visit path q v ok =
    let now = v.visit_counter + 1 in
    let o = visit_again path now v.entries in
    let a = visit_again-Again path now path v.entries in
    let older = Within-le v.visit_counter now v.entries (omega arith) ok.past in
    let found = visit_entries-find path q v o (visit_again-Again path now q v.entries) a in
    (
      visit_entries-IsVisits path v o ok a (visit_again-Within path now v.entries older),
      visit_entries-counter path v o,
      found.0,
      found.1,
    )
