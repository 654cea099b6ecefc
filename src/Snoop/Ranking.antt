-- ===== src/Snoop/Ranking.antt =====
-- The order of the rows that `print_summary` of c-shell/src/snoop.c prints.
use c_shell.Base.{
  ℕ, ◌+◌, ◌-◌, ◌^◌, ◌<◌, ◌≡◌, refl, ap, ◌∙◌, Bool, true, false, List, [], ◌∷◌, map, leb, ltb, ◌==◌,
  if◌then◌else◌, Option, none, some, Bool-cases, inl, inr, arith,
}
use mathlib.Core.List.{Perm}
use c_shell.Numbers.{pos, to_int}
use c_shell.Snoop.Names.{syscall_name}
use c_shell.Sorting.{insert, qsort, IsSorted, qsort-Perm, qsort-IsSorted}
use c_shell.Snoop.{
  SyscallStat, Stats, rank, difference, compare_stats, not_positive, stats_before, used_stats, row,
  print_summary,
}

-- More calls come first, and of as many calls the number that was called first.
abbrev pub ranked : SyscallStat → SyscallStat → Bool
ranked a b = if a.count == b.count then leb (rank a.order) (rank b.order) else ltb b.count a.count

unfoldable pub AllSmall : List SyscallStat → Type 0
AllSmall [] = Unit
AllSmall (s ∷ ss) = (s.count < 2 ^ 31) × AllSmall ss

cast_more : (a b : ℕ) → a < b → b < 2 ^ 31 → not_positive (to_int (2 ^ 64 + b - a)) ≡ false
unfolding to_int
cast_more a b h small = ground arith

cast_less : (a b : ℕ) → b < a → a < 2 ^ 31 → not_positive (to_int (2 ^ 64 + b - a)) ≡ true
unfolding to_int
cast_less a b h small = ground arith

not_positive-difference : (a b : ℕ) → not_positive (difference a b) ≡ leb a b
not_positive-difference a b = ground arith

stats_before-ranked :
    (a b : SyscallStat) → a.count < 2 ^ 31 → b.count < 2 ^ 31 → stats_before a b ≡ ranked a b
unfolding stats_before compare_stats to_int
stats_before-ranked a b small_a small_b = elim (Bool-cases (a.count == b.count)) [
  | inl same ↦ rw same (not_positive-difference (rank a.order) (rank b.order))
  | inr other ↦ elim (Bool-cases (ltb b.count a.count)) [
    | inl more ↦ rw (other, more) (cast_less a.count b.count (ground (arith, more)) small_a)
    | inr less ↦ rw (other, less) (cast_more a.count b.count (ground (arith, other, less)) small_b)
  ]
]

ranked-total : (a b : SyscallStat) → ranked a b ≡ false → ranked b a ≡ true
ranked-total a b h = ground (arith, h)

ranked-transitive :
    (a b c : SyscallStat) → ranked a b ≡ true → ranked b c ≡ true → ranked a c ≡ true
ranked-transitive a b c h k = ground (arith, h, k)

insert-ranked :
    (x : SyscallStat) (ys : List SyscallStat)
    → x.count < 2 ^ 31
    → AllSmall ys
    → (insert stats_before x ys ≡ insert ranked x ys) × AllSmall (insert ranked x ys)
unfolding insert AllSmall
insert-ranked x [] small ok = (refl, (small, tt))
insert-ranked x (y ∷ ys) small ok =
    let rest = insert-ranked x ys small ok.1 in
    let same = stats_before-ranked x y small ok.0 in
    elim (Bool-cases (ranked x y)) [
      | inl e ↦ rw (same, e) (refl, (small, ok))
      | inr e ↦ rw (same, e) (ap (◌∷◌ y) rest.0, (ok.0, rest.1))
    ]

qsort-ranked :
    (ss : List SyscallStat)
    → AllSmall ss
    → (qsort stats_before ss ≡ qsort ranked ss) × AllSmall (qsort ranked ss)
unfolding qsort AllSmall
qsort-ranked [] ok = (refl, tt)
qsort-ranked (s ∷ ss) ok =
    let rest = qsort-ranked ss ok.1 in
    let placed = insert-ranked s (qsort ranked ss) ok.0 rest.1 in
    (ap (insert stats_before s) rest.0 ∙ placed.0, placed.1)

-- With the entry in front if its order, that of its first call, has been given.
abbrev pub if_called : Option ℕ → SyscallStat → List SyscallStat → List SyscallStat
if_called none s ss = ss
if_called (some order) s ss = s ∷ ss

-- The entries whose number has been called.
unfoldable pub called : List SyscallStat → List SyscallStat
called [] = []
called (s ∷ ss) = if_called s.order s (called ss)

used-called :
    (o : Option ℕ) (s : SyscallStat) (ss : List SyscallStat)
    → (if elim o [ none ↦ false | some n ↦ true ] then s ∷ ss else ss) ≡ if_called o s ss
used-called none s ss = refl
used-called (some n) s ss = refl

used_stats-called : (ss : List SyscallStat) → used_stats ss ≡ called ss
unfolding used_stats called
used_stats-called [] = refl
used_stats-called (s ∷ ss) =
    used-called s.order s (used_stats ss) ∙ ap (if_called s.order s) (used_stats-called ss)

-- As long as each number has fewer than 2 ^ 31 calls, the summary has one row for each number that has
-- been called, with its name, its calls and their time, those with more calls first, and with as many
-- calls the one that was called first.
pub print_summary-ranked :
    (st : Stats)
    → AllSmall (called st.stats)
    → (ss : List SyscallStat) × (print_summary st
        ≡ map (λ s. (syscall_name (pos s.number), s.count, s.total_time)) ss)
      × Perm (called st.stats) ss
      × IsSorted ranked ss
unfolding print_summary
print_summary-ranked st small =
    let used = called st.stats in
    (
      qsort ranked used,
      ap (λ us. map row (qsort stats_before us)) (used_stats-called st.stats)
          ∙ ap (map row) (qsort-ranked used small).0,
      qsort-Perm ranked used,
      qsort-IsSorted ranked ranked-total ranked-transitive used,
    )
