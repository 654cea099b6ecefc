-- ===== src/Sorting.antt =====
-- `qsort` of the C library, as reveal.c and snoop.c call it: a list in the order of a comparison.
use c_shell.Base.{
  ◌≡◌, refl, ap, ◌∙◌, Bool, true, false, List, [], ◌∷◌, ltb, ◌==◌, if◌then◌else◌, Bytes, Bool-cases,
  inl, inr, arith,
}
use mathlib.Core.List.{Mem, Perm, forall_mem-cons, mem-cons_self, not-mem-nil}
use mathlib.Core.List.Perm
use mathlib.Core.Bool.{Bool-set}

module _ {ℓ} {A : Type ℓ} (before : A → A → Bool) where
  unfoldable pub insert : A → List A → List A
  insert x [] = x ∷ []
  insert x (y ∷ ys) = let rest = insert x ys in if before x y then x ∷ y ∷ ys else y ∷ rest

  unfoldable pub qsort : List A → List A
  unfolding insert
  qsort [] = []
  qsort (x ∷ xs) = insert x (qsort xs)

  -- No element of the list is to stand before this one.
  unfoldable pub Heads : A → List A → Type 0
  Heads x [] = Unit
  Heads x (y ∷ ys) = (before x y ≡ true) × Heads x ys

  unfoldable pub IsSorted : List A → Type 0
  IsSorted [] = Unit
  IsSorted (x ∷ xs) = Heads x xs × IsSorted xs

  insert-Perm : (x : A) (xs : List A) → Perm (x ∷ xs) (insert x xs)
  unfolding insert
  insert-Perm x [] = Perm.rfl
  insert-Perm x (y ∷ ys) = elim (Bool-cases (before x y)) [
    | inl e ↦ rw e Perm.rfl
    | inr e ↦ rw e (Perm.trans (Perm.swap y x ys) (Perm.cons y (insert-Perm x ys)))
  ]

  pub qsort-Perm : (xs : List A) → Perm xs (qsort xs)
  unfolding qsort
  qsort-Perm [] = Perm.rfl
  qsort-Perm (x ∷ xs) = Perm.trans (Perm.cons x (qsort-Perm xs)) (insert-Perm x (qsort xs))

  module _ (total : (x y : A) → before x y ≡ false → before y x ≡ true)
      (transitive : (x y z : A) → before x y ≡ true → before y z ≡ true → before x z ≡ true) where
    Heads-below : (x y : A) (zs : List A) → before x y ≡ true → Heads y zs → Heads x zs
    unfolding Heads
    Heads-below x y [] h hs = tt
    Heads-below x y (z ∷ zs) h hs = (transitive x y z h hs.0, Heads-below x y zs h hs.1)

    Heads-insert : (x y : A) (ys : List A) → before y x ≡ true → Heads y ys → Heads y (insert x ys)
    unfolding Heads insert
    Heads-insert x y [] h hs = (h, tt)
    Heads-insert x y (z ∷ zs) h hs = elim (Bool-cases (before x z)) [
      | inl e ↦ rw e (h, hs)
      | inr e ↦ rw e (hs.0, Heads-insert x y zs h hs.1)
    ]

    insert-IsSorted : (x : A) (xs : List A) → IsSorted xs → IsSorted (insert x xs)
    unfolding IsSorted insert Heads
    insert-IsSorted x [] ok = (tt, tt)
    insert-IsSorted x (y ∷ ys) ok = elim (Bool-cases (before x y)) [
      | inl e ↦ rw e ((e, Heads-below x y ys e ok.0), ok)
      | inr e ↦ rw e (Heads-insert x y ys (total x y e) ok.0, insert-IsSorted x ys ok.1)
    ]

    pub qsort-IsSorted : (xs : List A) → IsSorted (qsort xs)
    unfolding IsSorted qsort
    qsort-IsSorted [] = tt
    qsort-IsSorted (x ∷ xs) = insert-IsSorted x (qsort xs) (qsort-IsSorted xs)

    Heads-Mem : (x : A) (ys : List A) → Heads x ys → (z : A) → Mem z ys → before x z ≡ true
    unfolding Heads
    Heads-Mem x [] h = λ z m. absurd (not-mem-nil m)
    Heads-Mem x (y ∷ ys) h =
        (forall_mem-cons {p = λ z. before x z ≡ true} (λ z. Bool-set _ _)).1
          (h.0, Heads-Mem x ys h.1)

    module _ (antisym : (x y : A) → before x y ≡ true → before y x ≡ true → x ≡ y) where
      reflexive : (x : A) → before x x ≡ true
      reflexive x = elim (Bool-cases (before x x)) [ inl e ↦ e | inr e ↦ total x x e ]

      -- A list has one sorted arrangement.
      pub IsSorted-unique : (xs ys : List A) → IsSorted xs → IsSorted ys → Perm xs ys → xs ≡ ys
      unfolding IsSorted Heads
      IsSorted-unique [] ys h k p = Perm.nil-eq p
      IsSorted-unique (x ∷ xs) [] h k p = Perm.eq-nil p
      IsSorted-unique (x ∷ xs) (y ∷ ys) h k p =
          let below : before x y ≡ true =
            Heads-Mem x (x ∷ xs) (reflexive x, h.0) y ((Perm.mem_iff p).1 mem-cons_self) in
          let above : before y x ≡ true =
            Heads-Mem y (y ∷ ys) (reflexive y, k.0) x ((Perm.mem_iff p).0 mem-cons_self) in
          let heads = antisym x y below above in
          let tails = Perm.cons_inv (Perm.trans p (Perm.symm (Perm.cons' heads Perm.rfl))) in
          ap (◌∷◌ x) (IsSorted-unique xs ys h.1 k.1 tails) ∙ ap (λ a. a ∷ ys) heads

-- `strcmp(a, b) <= 0`
unfoldable pub str_le : Bytes → Bytes → Bool
str_le [] b = true
str_le (x ∷ xs) [] = false
str_le (x ∷ xs) (y ∷ ys) = let rest = str_le xs ys in if x == y then rest else ltb x y

pub str_le-total : (a b : Bytes) → str_le a b ≡ false → str_le b a ≡ true
unfolding str_le
str_le-total [] b h = cc
str_le-total (x ∷ xs) [] h = refl
str_le-total (x ∷ xs) (y ∷ ys) h = ground (arith, h, str_le-total xs ys)

pub str_le-transitive : (a b c : Bytes) → str_le a b ≡ true → str_le b c ≡ true → str_le a c ≡ true
unfolding str_le
str_le-transitive [] b c h k = refl
str_le-transitive (x ∷ xs) [] c h k = cc
str_le-transitive (x ∷ xs) (y ∷ ys) [] h k = cc
str_le-transitive (x ∷ xs) (y ∷ ys) (z ∷ zs) h k = ground (arith, h, k, str_le-transitive xs ys zs)

pub str_le-antisym : (a b : Bytes) → str_le a b ≡ true → str_le b a ≡ true → a ≡ b
unfolding str_le
str_le-antisym [] [] h k = refl
str_le-antisym [] (y ∷ ys) h k = absurd (cc)
str_le-antisym (x ∷ xs) [] h k = absurd (cc)
str_le-antisym (x ∷ xs) (y ∷ ys) h k =
    let same : x ≡ y = ground (arith, h, k) in
    let rest : str_le xs ys ≡ true = ground (arith, h, same) in
    let back : str_le ys xs ≡ true = ground (arith, k, same) in
    rw same (ap (◌∷◌ y) (str_le-antisym xs ys rest back))
