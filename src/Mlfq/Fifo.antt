-- ===== src/Mlfq/Fifo.antt =====
-- The linked queues of xv6/kernel/proc.c against lists of processes.
use c_shell.Base.{
  ℕ, ◌≡◌, ◌≢◌, refl, ap, sym, subst, ◌∙◌, List, [], ◌∷◌, ◌++◌, Option, some, none, NotIn, Distinct,
  arith,
}
use c_shell.Mlfq.{
  Proc, ProcQueue, Kernel, set, set_next, append_to, enqueue, tail_behind, take_head, deque,
}

-- From the pointer `h` the `next` pointers lead through `ps`, to the null pointer.
abbrev pub Chain : (ℕ → Proc) → Option ℕ → List ℕ → Type 0
Chain procs h [] = h ≡ none
Chain procs h (p ∷ ps) = (h ≡ some p) × Chain procs (procs p).next ps

abbrev pub last : List ℕ → Option ℕ
last [] = none
last (p ∷ []) = some p
last (p ∷ q ∷ ps) = last (q ∷ ps)

-- A queue that holds the processes `ps`, the first one at its head.
pub record Holds (k : Kernel) (v : ProcQueue) (ps : List ℕ) : Type 0 where
  pub chain : Chain k.procs v.head ps
  pub ends : v.tail ≡ last ps
  pub distinct : Distinct ps

pub set_same {ℓ} : {A : Type ℓ} (p : ℕ) (v : A) (f : ℕ → A) → set p v f p ≡ v
set_same p v f = ground arith

pub set_other {ℓ} : {A : Type ℓ} (p r : ℕ) (v : A) (f : ℕ → A) → p ≢ r → set p v f r ≡ f r
set_other p r v f h = ground (arith, h)

-- A change of the pointer of a process that is not in the chain.
pub Chain-set :
    (procs : ℕ → Proc) (p : ℕ) (v : Proc) (h : Option ℕ) (ps : List ℕ)
    → NotIn p ps
    → Chain procs h ps
    → Chain (set p v procs) h ps
Chain-set procs p v h [] away c = c
Chain-set procs p v h (r ∷ ps) away c =
    (c.0, rw (set_other p r v procs away.0) (Chain-set procs p v (procs r).next ps away.1 c.1))

abbrev Elsewhere : ℕ → Option ℕ → Type 0
Elsewhere r none = Unit
Elsewhere r (some t) = t ≢ r

last-Elsewhere : (r : ℕ) (ps : List ℕ) → NotIn r ps → Elsewhere r (last ps)
last-Elsewhere r [] away = tt
last-Elsewhere r (p ∷ []) away = λ e. away.0 (sym e)
last-Elsewhere r (p ∷ q ∷ ps) away = last-Elsewhere r (q ∷ ps) away.1

pub some_injective : (a b : ℕ) → ◌≡◌ {A = Option ℕ} (some a) (some b) → a ≡ b
some_injective a b e = cc

clash : (t : ℕ) → ◌≡◌ {A = Option ℕ} none (some t) → ⊥
clash t e = cc

-- The last process of a chain is made to point to `p`, which is not in it and points nowhere.
Chain-append :
    (procs : ℕ → Proc) (p t : ℕ) (v : Proc) (h : Option ℕ) (ps : List ℕ)
    → last ps ≡ some t
    → v.next ≡ some p
    → Distinct ps
    → NotIn p ps
    → (procs p).next ≡ none
    → Chain procs h ps
    → Chain (set t v procs) h (ps ++ p ∷ [])
Chain-append procs p t v h [] l n d away z c = absurd (cc)
Chain-append procs p t v h (r ∷ []) l n d away z c =
    let same : r ≡ t = some_injective r t l in
    let there : (set t v procs r).next ≡ some p =
      (rw same (ap (λ u. u.next) (set_same t v procs))) ∙ n in
    let apart : t ≢ p = λ e. away.0 (sym (same ∙ e)) in
    (c.0, (there, rw (set_other t p v procs apart) z))
Chain-append procs p t v h (r ∷ s ∷ ps) l n d away z c =
    let apart : t ≢ r = subst (Elsewhere r) l (last-Elsewhere r (s ∷ ps) d.0) in
    let rest = Chain-append procs p t v (procs r).next (s ∷ ps) l n d.1 away.1 z c.1 in
    (c.0, rw (set_other t r v procs apart) rest)

pub NotIn-end : (n p : ℕ) (ps : List ℕ) → NotIn n ps → n ≢ p → NotIn n (ps ++ p ∷ [])
NotIn-end n p [] h e = (e, tt)
NotIn-end n p (q ∷ ps) h e = (h.0, NotIn-end n p ps h.1 e)

Distinct-end : (p : ℕ) (ps : List ℕ) → Distinct ps → NotIn p ps → Distinct (ps ++ p ∷ [])
Distinct-end p [] d h = (tt, tt)
Distinct-end p (q ∷ ps) d h = (NotIn-end q p ps d.0 (λ e. h.0 (sym e)), Distinct-end p ps d.1 h.1)

last-end : (p : ℕ) (ps : List ℕ) → last (ps ++ p ∷ []) ≡ some p
last-end p [] = refl
last-end p (q ∷ []) = refl
last-end p (q ∷ r ∷ ps) = last-end p (r ∷ ps)

last-some : (r : ℕ) (ps : List ℕ) → (t : ℕ) × (last (r ∷ ps) ≡ some t)
last-some r [] = (r, refl)
last-some r (q ∷ ps) = last-some q ps

none-last : (r : ℕ) (ps : List ℕ) → none ≡ last (r ∷ ps) → ⊥
none-last r ps e = let t = last-some r ps in clash t.0 (e ∙ t.1)

-- The queue that `enqueue` leaves, for the tail that it found.
append_to-Holds :
    (q p : ℕ) (k : Kernel) (tail : Option ℕ) (ps : List ℕ)
    → tail ≡ last ps
    → Chain k.procs (k.queues q).head ps
    → (k.procs p).next ≡ none
    → Distinct ps
    → NotIn p ps
    → Holds (append_to q p tail k) ((append_to q p tail k).queues q) (ps ++ p ∷ [])
append_to-Holds q p k none [] e c z d away =
    let v : ProcQueue = record { head = some p; tail = some p } in
    rw (set_same q v k.queues) (record { chain = (refl, z); ends = refl; distinct = (tt, tt) })
append_to-Holds q p k none (r ∷ ps) e c z d away = absurd (none-last r ps e)
append_to-Holds q p k (some t) [] e c z d away = absurd (cc)
append_to-Holds q p k (some t) (r ∷ ps) e c z d away =
    let v : ProcQueue = record { head = (k.queues q).head; tail = some p } in
    rw (set_same q v k.queues) (record {
      chain =
          Chain-append k.procs p t (record (k.procs t) { next = some p }) _ (r ∷ ps) (sym e) refl d
            away z c;
      ends = sym (last-end p (r ∷ ps));
      distinct = Distinct-end p (r ∷ ps) d away;
    })

-- `enqueue` puts a process that is not in the queue behind those that are.
pub enqueue-Holds :
    (q p : ℕ) (k : Kernel) (ps : List ℕ)
    → Holds k (k.queues q) ps
    → NotIn p ps
    → Holds (enqueue q p k) ((enqueue q p k).queues q) (ps ++ p ∷ [])
unfolding enqueue
enqueue-Holds q p k ps h away =
    append_to-Holds q p (set_next p none k) (k.queues q).tail ps h.ends
      (Chain-set k.procs p (record (k.procs p) { next = none }) _ ps away h.chain)
      (ap (λ u. u.next) (set_same p (record (k.procs p) { next = none }) k.procs)) h.distinct away

tail_left :
    (procs : ℕ → Proc) (n tail : Option ℕ) (p : ℕ) (ps : List ℕ)
    → Chain procs n ps
    → tail ≡ last (p ∷ ps)
    → tail_behind n tail ≡ last ps
tail_left procs n tail p [] c e = ap (λ o. tail_behind o tail) c
tail_left procs n tail p (r ∷ ps) c e = ap (λ o. tail_behind o tail) c.0 ∙ e

pub take_head-Holds :
    (q p : ℕ) (k : Kernel) (ps : List ℕ)
    → Holds k (k.queues q) (p ∷ ps)
    → let r = take_head q (some p) k in (r.0 ≡ some p) × Holds r.1 (r.1.queues q) ps
take_head-Holds q p k ps h =
    let n = (k.procs p).next in
    let v : ProcQueue = record { head = n; tail = tail_behind n (k.queues q).tail } in
    (
      refl,
      rw (set_same q v k.queues) (record {
        chain =
            Chain-set k.procs p (record (k.procs p) { next = none }) n ps h.distinct.0 h.chain.1;
        ends = tail_left k.procs n (k.queues q).tail p ps h.chain.1 h.ends;
        distinct = h.distinct.1;
      }),
    )

-- What `deque` gives of a queue, and what it leaves of it.
abbrev pub Takes : ℕ → Kernel → List ℕ → Option ℕ × Kernel → Type 0
Takes q k [] r = r ≡ (none, k)
Takes q k (p ∷ ps) r = (r.0 ≡ some p) × Holds r.1 (r.1.queues q) ps

-- `deque` takes the first process of the queue and leaves the others, or finds none.
pub deque-Takes :
    (q : ℕ) (k : Kernel) (ps : List ℕ) → Holds k (k.queues q) ps → Takes q k ps (deque q k)
unfolding deque
deque-Takes q k [] h = ap (λ o. take_head q o k) h.chain
deque-Takes q k (p ∷ ps) h = rw h.chain.0 (take_head-Holds q p k ps h)
