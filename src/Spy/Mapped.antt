-- ===== src/Spy/Mapped.antt =====
-- Which mapped files `print_mem_entries` of c-shell/src/spy.c prints.
use c_shell.Base.{
  ◌+◌, ◌≤◌, ◌≡◌, refl, sym, ap, subst, ◌∙◌, true, false, ◌||◌, List, [], ◌∷◌, ◌++◌, some, length,
  length-append, ltb, if◌then◌else◌, Bytes, str_eq, str_eq_sound, codes, Bool-cases, inl, inr,
  arith,
}
use c_shell.Numbers.{ℤ}
use c_shell.Spy.{
  ProcFs, Row, map_path, is_seen, max_mem_paths, print_entry, remember, mem_line, mem_loop,
  maps_opened, print_mem_entries,
}

abbrev pub keep_path : Bytes → List Bytes → List Bytes
keep_path [] ps = ps
keep_path (c ∷ cs) ps = (c ∷ cs) ∷ ps

-- The paths in the lines.
unfoldable pub paths : List Bytes → List Bytes
paths [] = []
paths (l ∷ ls) = keep_path (map_path l) (paths ls)

unfoldable pub without : Bytes → List Bytes → List Bytes
without p [] = []
without p (q ∷ qs) = let rest = without p qs in if str_eq p q then rest else q ∷ rest

-- Each path once, where it stands first.
unfoldable pub first_occurrences : List Bytes → List Bytes
unfolding without
first_occurrences [] = []
first_occurrences (p ∷ ps) = p ∷ without p (first_occurrences ps)

unseen : List Bytes → List Bytes → List Bytes
unseen seen [] = []
unseen seen (p ∷ ps) = let rest = unseen seen ps in if is_seen p seen then rest else p ∷ rest

unseen-without :
    (seen : List Bytes) (p : Bytes) (ps : List Bytes)
    → is_seen p seen ≡ true
    → unseen seen (without p ps) ≡ unseen seen ps
unfolding unseen without
unseen-without seen p [] h = refl
unseen-without seen p (q ∷ qs) h = elim (Bool-cases (str_eq p q)) [
  | inl same ↦
      let there : is_seen q seen ≡ true =
        subst (λ r. is_seen r seen ≡ true) (str_eq_sound p q same) h in
      rw (same, there) (unseen-without seen p qs h)
  | inr other ↦
      rw other (ap (λ rest. if is_seen q seen then rest else q ∷ rest) (unseen-without seen p qs h))
]

is_seen-snoc :
    (q p : Bytes) (seen : List Bytes) → is_seen q (seen ++ p ∷ []) ≡ (is_seen q seen || str_eq p q)
unfolding is_seen
is_seen-snoc q p [] = ground arith
is_seen-snoc q p (s ∷ ss) = rw (is_seen-snoc q p ss) ground arith

unseen-snoc :
    (seen : List Bytes) (p : Bytes) (ps : List Bytes)
    → unseen (seen ++ p ∷ []) ps ≡ unseen seen (without p ps)
unfolding unseen without
unseen-snoc seen p [] = refl
unseen-snoc seen p (q ∷ qs) = elim (Bool-cases (str_eq p q)) [
  | inl same ↦ rw (is_seen-snoc q p seen, same) (ground (arith, unseen-snoc seen p qs))
  | inr other ↦ rw (is_seen-snoc q p seen, other) (ground (arith, unseen-snoc seen p qs))
]

module _ (proc : ProcFs) (pid : ℤ) where
  unfoldable pub entries : List Bytes → List Row
  entries [] = []
  entries (p ∷ ps) = print_entry proc pid (codes "mem") p ++ entries ps

  Unseen : List Bytes → List Bytes → List Row → Type 0
  Unseen seen ps rs =
      length seen + length (unseen seen (first_occurrences ps)) ≤ max_mem_paths
      → rs ≡ entries (unseen seen (first_occurrences ps))

  new_path :
      (seen ps : List Bytes) (p : Bytes)
      → is_seen p seen ≡ false
      → unseen seen (first_occurrences (p ∷ ps))
        ≡ p ∷ unseen (seen ++ p ∷ []) (first_occurrences ps)
  unfolding first_occurrences unseen
  new_path seen ps p new = rw new (ap (◌∷◌ p) (sym (unseen-snoc seen p (first_occurrences ps))))

  old_path :
      (seen ps : List Bytes) (p : Bytes)
      → is_seen p seen ≡ true
      → unseen seen (first_occurrences (p ∷ ps)) ≡ unseen seen (first_occurrences ps)
  unfolding first_occurrences unseen
  old_path seen ps p old = rw old (unseen-without seen p (first_occurrences ps) old)

  mem_line-Unseen :
      (p : Bytes) (seen ls ps : List Bytes)
      → ((s : List Bytes) → Unseen s ps (mem_loop proc pid s ls))
      → Unseen seen (keep_path p ps) (
          mem_line proc pid p seen
            (mem_loop proc pid seen ls)
            (mem_loop proc pid (remember proc pid p seen) ls))
  unfolding mem_line Unseen entries
  mem_line-Unseen [] seen ls ps ih = ih seen
  mem_line-Unseen (c ∷ cs) seen ls ps ih = elim (Bool-cases (is_seen (c ∷ cs) seen)) [
    | inl old ↦ rw (old, old_path seen ps (c ∷ cs) old) (ih seen)
    | inr new ↦
        rw (new, new_path seen ps (c ∷ cs) new)
          (λ h.
            let room : ltb (length seen) max_mem_paths ≡ true = ground (arith, h) in
            rw room (
              ap (λ rs. print_entry proc pid (codes "mem") (c ∷ cs) ++ rs)
                (ih (seen ++ (c ∷ cs) ∷ [])
                  (omega (arith, h, length-append seen ((c ∷ cs) ∷ []))))))
  ]

  mem_loop-Unseen : (ls seen : List Bytes) → Unseen seen (paths ls) (mem_loop proc pid seen ls)
  unfolding mem_loop paths first_occurrences unseen Unseen entries
  mem_loop-Unseen [] seen h = refl
  mem_loop-Unseen (l ∷ ls) seen h =
      mem_line-Unseen (map_path l) seen ls (paths ls) (mem_loop-Unseen ls) h

  nothing_unseen : (ps : List Bytes) → unseen [] ps ≡ ps
  unfolding unseen is_seen
  nothing_unseen [] = refl
  nothing_unseen (p ∷ ps) = ap (◌∷◌ p) (nothing_unseen ps)

  -- When a process maps at most 512 different files, `spy` prints a row for each of them that `stat`
  -- finds, in the order in which the files come first in its map.
  pub print_mem_entries-once :
      (ls : List Bytes)
      → proc.maps pid ≡ some ls
      → length (first_occurrences (paths ls)) ≤ max_mem_paths
      → print_mem_entries proc pid ≡ entries (first_occurrences (paths ls))
  unfolding print_mem_entries maps_opened Unseen
  print_mem_entries-once ls mapped few =
      let all = nothing_unseen (first_occurrences (paths ls)) in
      ap (maps_opened proc pid) mapped
      ∙ subst (λ ps. 0 + length ps ≤ max_mem_paths → mem_loop proc pid [] ls ≡ entries ps) all
          (mem_loop-Unseen ls []) (omega (arith, few))
