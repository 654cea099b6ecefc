-- ===== src/Frecency/Load.antt =====
-- What `load_frecency` of c-shell/src/frecency.c reads.
use c_shell.Base.{
  ℕ, zero, suc, ◌+◌, ◌≤◌, ◌≡◌, List, [], ◌∷◌, ◌++◌, length, length-append, leb, ◌<◌, ◌-◌, take, ap,
  sym, ◌∙◌, append_assoc, append-nil, arith, Bool-cases, inl, inr,
}
use c_shell.Frecency.{Entry, Visits, max_entries, load_frecency, read_entry}
use c_shell.Frecency.Record.{IsVisits, Within-le, Within-append}

take_more :
    (xs ys : List Entry) (e : Entry)
    → length xs < max_entries
    → xs ++ take (max_entries - length xs) (e ∷ ys)
      ≡ (xs ++ e ∷ []) ++ take (max_entries - length (xs ++ e ∷ [])) ys
take_more xs ys e h =
    let l : length (xs ++ e ∷ []) ≡ length xs + 1 = length-append xs (e ∷ []) in
    let m : max_entries - length xs ≡ suc (max_entries - length (xs ++ e ∷ [])) =
      omega (arith, l) in
    ap (λ n. xs ++ take n (e ∷ ys)) m
    ∙ sym (append_assoc xs (e ∷ []) (take (max_entries - length (xs ++ e ∷ [])) ys))

take_none : (n : ℕ) (xs : List Entry) → xs ++ take n [] ≡ xs
take_none zero xs = append-nil xs
take_none (suc n) xs = append-nil xs

read_entry-IsVisits :
    (v : Visits) (e : Entry)
    → IsVisits v
    → length v.entries < max_entries
    → IsVisits (read_entry v e)
read_entry-IsVisits v e ok h =
    let now = (read_entry v e).visit_counter in
    let later : v.visit_counter ≤ now = ground arith in
    let past : e.last_visit ≤ now = ground arith in
    record {
      few = omega (arith, h, length-append v.entries (e ∷ []));
      past =
          Within-append now v.entries e (Within-le v.visit_counter now v.entries later ok.past)
            past;
    }

-- A log is read up to the 1000th entry, and no entry was visited later than the counter says.
pub load_frecency_lem :
    (v : Visits) (es : List Entry)
    → IsVisits v
    → IsVisits (load_frecency v es)
      × ((load_frecency v es).entries ≡ v.entries ++ take (max_entries - length v.entries) es)
unfolding load_frecency
load_frecency_lem v [] ok = (ok, sym (take_none (max_entries - length v.entries) v.entries))
load_frecency_lem v (e ∷ es) ok = elim (Bool-cases (leb max_entries (length v.entries))) [
  | inl full ↦
      let none_left : max_entries - length v.entries ≡ 0 = ground (arith, full) in
      rw (full, none_left) (ok, sym (append-nil v.entries))
  | inr room ↦
      let below : length v.entries < max_entries = ground (arith, room) in
      let rest = load_frecency_lem (read_entry v e) es (read_entry-IsVisits v e ok below) in
      rw room (rest.0, rest.1 ∙ sym (take_more v.entries es e below))
]
