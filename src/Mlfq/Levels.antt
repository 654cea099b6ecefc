-- ===== src/Mlfq/Levels.antt =====
-- The four queues of xv6/kernel/proc.c together: no process stands in two of them, and each operation
-- leaves the others alone.
use c_shell.Base.{
  ℕ, ◌≡◌, ◌≢◌, sym, subst, false, List, [], ◌∷◌, ◌++◌, Option, some, none, ◌==◌, ==_iff, Bool-cases,
  inl, inr, NotIn, arith,
}
use c_shell.Mlfq.{ProcQueue, Kernel, set, set_next, append_to, enqueue}
use c_shell.Mlfq.Fifo.{
  last, Holds, enqueue-Holds, Chain-set, set_other, set_same, NotIn-end, some_injective,
}

abbrev pub Apart : List ℕ → List ℕ → Type 0
Apart [] ys = Unit
Apart (x ∷ xs) ys = NotIn x ys × Apart xs ys

-- Each queue holds its list, and no two lists share a process.
pub record IsLevels (k : Kernel) (levels : ℕ → List ℕ) : Type 0 where
  pub holds : (q : ℕ) → Holds k (k.queues q) (levels q)
  pub apart : (q r : ℕ) → q ≢ r → Apart (levels q) (levels r)

Apart-last : (t : ℕ) (ps qs : List ℕ) → last ps ≡ some t → Apart ps qs → NotIn t qs
Apart-last t [] qs e a = absurd (cc)
Apart-last t (p ∷ []) qs e a = subst (λ n. NotIn n qs) (some_injective p t e) a.0
Apart-last t (p ∷ r ∷ ps) qs e a = Apart-last t (r ∷ ps) qs e a.1

-- A queue that holds a list does so behind a change of the pointer of another process.
pub Holds-set :
    (k : Kernel) (p : ℕ) (o : Option ℕ) (v : ProcQueue) (qs : List ℕ)
    → NotIn p qs
    → Holds k v qs
    → Holds (set_next p o k) v qs
Holds-set k p o v qs away h = record {
  chain = Chain-set k.procs p (record (k.procs p) { next = o }) v.head qs away h.chain;
  ends = h.ends;
  distinct = h.distinct;
}

append_to-other :
    (q r p : ℕ) (k : Kernel) (tail : Option ℕ) (ps qs : List ℕ)
    → q ≢ r
    → tail ≡ last ps
    → Apart ps qs
    → Holds k (k.queues r) qs
    → Holds (append_to q p tail k) ((append_to q p tail k).queues r) qs
append_to-other q r p k none ps qs other e a h =
    let v : ProcQueue = record { head = some p; tail = some p } in
    rw (set_other q r v k.queues other)
      (record { chain = h.chain; ends = h.ends; distinct = h.distinct })
append_to-other q r p k (some t) ps qs other e a h =
    let v : ProcQueue = record { head = (k.queues q).head; tail = some p } in
    let moved = Holds-set k t (some p) (k.queues r) qs (Apart-last t ps qs (sym e) a) h in
    rw (set_other q r v k.queues other)
      (record { chain = moved.chain; ends = moved.ends; distinct = moved.distinct })

enqueue-other :
    (q r p : ℕ) (k : Kernel) (ps qs : List ℕ)
    → q ≢ r
    → Holds k (k.queues q) ps
    → Apart ps qs
    → NotIn p qs
    → Holds k (k.queues r) qs
    → Holds (enqueue q p k) ((enqueue q p k).queues r) qs
unfolding enqueue
enqueue-other q r p k ps qs other hq a away h =
    append_to-other q r p (set_next p none k) (k.queues q).tail ps qs other hq.ends a
      (Holds-set k p none (k.queues r) qs away h)

-- The lists behind an `enqueue`.
abbrev pub pushed : ℕ → ℕ → (ℕ → List ℕ) → ℕ → List ℕ
pushed q p levels = set q (levels q ++ p ∷ []) levels

Apart-end_left : (p : ℕ) (xs ys : List ℕ) → Apart xs ys → NotIn p ys → Apart (xs ++ p ∷ []) ys
Apart-end_left p [] ys a h = (h, tt)
Apart-end_left p (x ∷ xs) ys a h = (a.0, Apart-end_left p xs ys a.1 h)

Apart-end_right : (p : ℕ) (xs ys : List ℕ) → Apart xs ys → NotIn p xs → Apart xs (ys ++ p ∷ [])
Apart-end_right p [] ys a h = tt
Apart-end_right p (x ∷ xs) ys a h =
    (NotIn-end x p ys a.0 (λ e. h.0 (sym e)), Apart-end_right p xs ys a.1 h.1)

not_same : (q r : ℕ) → q ≡ r → (r == q) ≡ false → ⊥
not_same q r s e = ground arith

-- A property of every place, of the changed one and of the others.
pub at_levels :
    {A : Type 0} (P : ℕ → A → Type 0) (q : ℕ) (v : A) (levels : ℕ → A)
    → P q v
    → ((r : ℕ) → q ≢ r → P r (levels r))
    → (r : ℕ) → P r (set q v levels r)
at_levels P q v levels here there r = elim (Bool-cases (r == q)) [
  | inl e ↦
      let same : r ≡ q = (==_iff r q).0 e in
      subst (λ x. P x (set q v levels x)) (sym same) (rw (set_same q v levels) here)
  | inr e ↦
      let other : q ≢ r = λ s. not_same q r s e in rw (set_other q r v levels other) (there r other)
]

-- `enqueue` puts a process that stands in no queue behind the others of one queue, and changes
-- nothing else.
pub enqueue-IsLevels :
    (q p : ℕ) (k : Kernel) (levels : ℕ → List ℕ)
    → IsLevels k levels
    → ((r : ℕ) → NotIn p (levels r))
    → IsLevels (enqueue q p k) (pushed q p levels)
enqueue-IsLevels q p k levels ok away =
    let k' = enqueue q p k in
    let v = levels q ++ p ∷ [] in
    record {
      holds =
          at_levels (λ r ps. Holds k' (k'.queues r) ps) q v levels
            (enqueue-Holds q p k (levels q) (ok.holds q) (away q))
            (λ r other.
              enqueue-other q r p k (levels q) (levels r) other (ok.holds q) (ok.apart q r other)
                (away r) (ok.holds r));
      apart = λ a.
          at_levels (λ r ps. (b : ℕ) → r ≢ b → Apart ps (pushed q p levels b)) q v levels
            (λ b other.
              rw (set_other q b v levels other)
                (Apart-end_left p (levels q) (levels b) (ok.apart q b other) (away b)))
            (λ r other b apart.
              at_levels (λ b ps. r ≢ b → Apart (levels r) ps) q v levels
                (λ ne. Apart-end_right p (levels r) (levels q) (ok.apart r q ne) (away r))
                (λ b ne. ok.apart r b) b apart)
            a;
    }
