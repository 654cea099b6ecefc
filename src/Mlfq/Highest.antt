-- ===== src/Mlfq/Highest.antt =====
-- The process that `deque_highest_priority_p` of xv6/kernel/proc.c picks.
use c_shell.Base.{
  ℕ, zero, suc, ◌≡◌, ◌≢◌, refl, ap, subst, List, [], ◌∷◌, Option, some, none, inl, inr, ◌⊎◌, NotIn,
}
use c_shell.Mlfq.{
  ProcQueue, Kernel, set, tail_behind, take_head, deque, or_else, deque_from,
  deque_highest_priority_p,
}
use c_shell.Mlfq.Fifo.{Holds, deque-Takes, take_head-Holds, set_other}
use c_shell.Mlfq.Levels.{Apart, IsLevels, Holds-set, at_levels}

abbrev pub front : List ℕ → Option ℕ → Option ℕ
front [] rest = rest
front (p ∷ ps) rest = some p

abbrev pub cut : ℕ → List ℕ → (ℕ → List ℕ) → (ℕ → List ℕ) → ℕ → List ℕ
cut i [] levels rest = rest
cut i (p ∷ ps) levels rest = set i ps levels

-- The first process of the queues from `i` on, `left` of them, and the lists without it.
unfoldable pub first_from : ℕ → ℕ → (ℕ → List ℕ) → Option ℕ
first_from zero i levels = none
first_from (suc left) i levels = front (levels i) (first_from left (suc i) levels)

unfoldable pub without_first : ℕ → ℕ → (ℕ → List ℕ) → ℕ → List ℕ
without_first zero i levels = levels
without_first (suc left) i levels = cut i (levels i) levels (without_first left (suc i) levels)

take_head-other :
    (q r p : ℕ) (k : Kernel) (qs : List ℕ)
    → q ≢ r
    → NotIn p qs
    → Holds k (k.queues r) qs
    → let t = take_head q (some p) k in Holds t.1 (t.1.queues r) qs
take_head-other q r p k qs other away h =
    let n = (k.procs p).next in
    let v : ProcQueue = record { head = n; tail = tail_behind n (k.queues q).tail } in
    let moved = Holds-set k p none (k.queues r) qs away h in
    rw (set_other q r v k.queues other)
      (record { chain = moved.chain; ends = moved.ends; distinct = moved.distinct })

Apart-fewer : (p : ℕ) (xs ys : List ℕ) → Apart xs (p ∷ ys) → Apart xs ys
Apart-fewer p [] ys a = tt
Apart-fewer p (x ∷ xs) ys a = (a.0.1, Apart-fewer p xs ys a.1)

Apart-NotIn : (p : ℕ) (xs ys : List ℕ) → Apart (p ∷ xs) ys → NotIn p ys
Apart-NotIn p xs ys a = a.0

pub deque-IsLevels :
    (q p : ℕ) (ps : List ℕ) (k : Kernel) (levels : ℕ → List ℕ)
    → IsLevels k levels
    → levels q ≡ p ∷ ps
    → ((deque q k).0 ≡ some p) × IsLevels (deque q k).1 (set q ps levels)
unfolding deque
deque-IsLevels q p ps k levels ok e =
    let here : Holds k (k.queues q) (p ∷ ps) = subst (Holds k (k.queues q)) e (ok.holds q) in
    let k' = (take_head q (some p) k).1 in
    let away : (r : ℕ) → q ≢ r → Apart (p ∷ ps) (levels r) =
      λ r other. subst (λ xs. Apart xs (levels r)) e (ok.apart q r other) in
    let toward : (r : ℕ) → r ≢ q → Apart (levels r) (p ∷ ps) =
      λ r other. subst (Apart (levels r)) e (ok.apart r q other) in
    rw here.chain.0 (
      refl,
      record {
        holds =
            at_levels (λ r xs. Holds k' (k'.queues r) xs) q ps levels
              (take_head-Holds q p k ps here).1
              (λ r other. take_head-other q r p k (levels r) other (away r other).0 (ok.holds r));
        apart = λ a.
            at_levels (λ r xs. (b : ℕ) → r ≢ b → Apart xs (set q ps levels b)) q ps levels
              (λ b other. rw (set_other q b ps levels other) (away b other).1)
              (λ r other b ne.
                at_levels (λ b xs. r ≢ b → Apart (levels r) xs) q ps levels
                  (λ ne. Apart-fewer p (levels r) ps (toward r ne)) (λ b ne. ok.apart r b) b ne)
              a;
      },
    )

pub List-cases : (xs : List ℕ) → (xs ≡ []) ⊎ ((p : ℕ) × (ps : List ℕ) × (xs ≡ p ∷ ps))
List-cases [] = inl refl
List-cases (p ∷ ps) = inr (p, ps, refl)

abbrev Picks : ℕ → ℕ → (ℕ → List ℕ) → Option ℕ × Kernel → Type 0
Picks left i levels r =
    (r.0 ≡ first_from left i levels) × IsLevels r.1 (without_first left i levels)

or_else-found :
    (p : ℕ) (r : Option ℕ × Kernel) (rest : Kernel → Option ℕ × Kernel)
    → r.0 ≡ some p
    → or_else r rest ≡ (some p, r.1)
or_else-found p (some q, k) rest e = ap (λ o. (o, k)) e
or_else-found p (none, k) rest e = absurd (cc)

deque_from_empty :
    (left i : ℕ) (k : Kernel)
    → deque i k ≡ (none, k)
    → deque_from (suc left) i k ≡ deque_from left (suc i) k
unfolding deque_from
deque_from_empty left i k e = ap (λ r. or_else r (deque_from left (suc i))) e

deque_from_found :
    (left i p : ℕ) (k : Kernel)
    → (deque i k).0 ≡ some p
    → deque_from (suc left) i k ≡ (some p, (deque i k).1)
unfolding deque_from
deque_from_found left i p k e = or_else-found p (deque i k) (deque_from left (suc i)) e

none_left :
    (i : ℕ) (k : Kernel) (levels : ℕ → List ℕ)
    → IsLevels k levels
    → Picks zero i levels (deque_from zero i k)
unfolding deque_from first_from without_first
none_left i k levels ok = (refl, ok)

deque_from-Picks :
    (left i : ℕ) (k : Kernel) (levels : ℕ → List ℕ)
    → IsLevels k levels
    → Picks left i levels (deque_from left i k)
unfolding first_from without_first
deque_from-Picks zero i k levels ok = none_left i k levels ok
deque_from-Picks (suc left) i k levels ok = elim (List-cases (levels i)) [
  | inl e ↦
      let nothing : deque i k ≡ (none, k) =
        deque-Takes i k [] (subst (Holds k (k.queues i)) e (ok.holds i)) in
      rw (e, deque_from_empty left i k nothing) (deque_from-Picks left (suc i) k levels ok)
  | inr (p, ps, e) ↦
      let taken = deque-IsLevels i p ps k levels ok e in
      rw (e, deque_from_found left i p k taken.0) (refl, taken.1)
]

-- `deque_highest_priority_p` takes the first process of the first of the four queues that has one and
-- changes nothing else; it finds none exactly if all four are empty.
pub deque_highest-Picks :
    (k : Kernel) (levels : ℕ → List ℕ)
    → IsLevels k levels
    → let r = deque_highest_priority_p k in
      (r.0 ≡ first_from 4 0 levels) × IsLevels r.1 (without_first 4 0 levels)
unfolding deque_highest_priority_p
deque_highest-Picks k levels ok = deque_from-Picks 4 0 k levels ok
