-- ===== src/Mlfq/Fewer.antt =====
-- Lists of distinct processes of the table are short enough for the boost.
use c_shell.Base.{
  ℕ, zero, suc, ◌≤◌, ◌<◌, ◌≡◌, sym, subst, false, List, [], ◌∷◌, length, ◌==◌, if◌then◌else◌, leb,
  inl, inr, Bool-cases, NotIn, Distinct, ==_iff, arith,
}
use c_shell.Mlfq.Ready.{mem}

without : ℕ → List ℕ → List ℕ
without n [] = []
without n (x ∷ xs) = let rest = without n xs in if n == x then rest else x ∷ rest

abbrev Below : ℕ → List ℕ → Type 0
Below n [] = Unit
Below n (x ∷ xs) = (x < n) × Below n xs

without-none : (n : ℕ) (xs : List ℕ) → NotIn n xs → length xs ≤ length (without n xs)
unfolding without
without-none n [] h = omega arith
without-none n (x ∷ xs) h =
    let away : (n == x) ≡ false = ground (arith, h.0) in
    rw away (omega (arith, without-none n xs h.1))

without-length : (n : ℕ) (xs : List ℕ) → Distinct xs → length xs ≤ suc (length (without n xs))
unfolding without
without-length n [] d = omega arith
without-length n (x ∷ xs) d = elim (Bool-cases (n == x)) [
  | inl e ↦
      rw e (omega (arith, without-none n xs (subst (λ y. NotIn y xs) (sym ((==_iff n x).0 e)) d.0)))
  | inr e ↦ rw e (omega (arith, without-length n xs d.1))
]

NotIn-without : (m n : ℕ) (xs : List ℕ) → NotIn m xs → NotIn m (without n xs)
unfolding without
NotIn-without m n [] h = tt
NotIn-without m n (x ∷ xs) h = elim (Bool-cases (n == x)) [
  | inl e ↦ rw e (NotIn-without m n xs h.1)
  | inr e ↦ rw e (h.0, NotIn-without m n xs h.1)
]

Distinct-without : (n : ℕ) (xs : List ℕ) → Distinct xs → Distinct (without n xs)
unfolding without
Distinct-without n [] d = tt
Distinct-without n (x ∷ xs) d = elim (Bool-cases (n == x)) [
  | inl e ↦ rw e (Distinct-without n xs d.1)
  | inr e ↦ rw e (NotIn-without x n xs d.0, Distinct-without n xs d.1)
]

Below-without : (n : ℕ) (xs : List ℕ) → Below (suc n) xs → Below n (without n xs)
unfolding without
Below-without n [] b = tt
Below-without n (x ∷ xs) b = elim (Bool-cases (n == x)) [
  | inl e ↦ rw e (Below-without n xs b.1)
  | inr e ↦ rw e (ground (arith, e, b.0), Below-without n xs b.1)
]

-- Distinct numbers below `n` are at most `n`.
length-Below : (n : ℕ) (xs : List ℕ) → Distinct xs → Below n xs → length xs ≤ n
length-Below zero [] d b = omega arith
length-Below zero (x ∷ xs) d b = absurd (omega (arith, b.0))
length-Below (suc n) xs d b = omega (
  arith,
  without-length n xs d,
  length-Below n (without n xs) (Distinct-without n xs d) (Below-without n xs b),
)

mem-low : (n x : ℕ) (xs : List ℕ) → (n ≤ x → mem x (x ∷ xs) ≡ false) → x < n
unfolding mem
mem-low n x xs h = elim (Bool-cases (leb n x)) [
  | inl e ↦ absurd (ground (arith, h (ground (arith, e))))
  | inr e ↦ ground (arith, e)
]

mem-Below : (n : ℕ) (xs : List ℕ) → ((x : ℕ) → n ≤ x → mem x xs ≡ false) → Below n xs
unfolding mem
mem-Below n [] h = tt
mem-Below n (x ∷ xs) h = (mem-low n x xs (h x), mem-Below n xs (λ y far. ground (arith, h y far)))

-- Distinct numbers of which none is `n` or more are at most `n`.
pub length-few :
    (n : ℕ) (xs : List ℕ) → Distinct xs → ((x : ℕ) → n ≤ x → mem x xs ≡ false) → length xs ≤ n
length-few n xs d h = length-Below n xs d (mem-Below n xs h)
