-- ===== src/Mlfq/Runnable.antt =====
-- What the operations on the queues of xv6/kernel/proc.c keep of the processes.
use c_shell.Base.{
  ℕ, ◌≡◌, refl, ap, sym, ◌∙◌, true, List, [], ◌∷◌, Option, some, none, ◌==◌, ==_iff, Bool-cases,
  inl, inr,
}
use c_shell.Mlfq.{Proc, is_runnable, Kernel, set, set_next, append_to, enqueue, take_head, boosted}
use c_shell.Mlfq.Fifo.{Chain}
use c_shell.Mlfq.Levels.{IsLevels}

-- The same pointers.
Chain-same :
    (f g : ℕ → Proc) (h : Option ℕ) (ps : List ℕ)
    → ((p : ℕ) → (g p).next ≡ (f p).next)
    → Chain f h ps
    → Chain g h ps
Chain-same f g h [] e c = c
Chain-same f g h (p ∷ ps) e c = (c.0, rw (e p) (Chain-same f g (f p).next ps e c.1))

pub IsLevels-same :
    (k : Kernel) (g : ℕ → Proc) (levels : ℕ → List ℕ)
    → ((p : ℕ) → (g p).next ≡ (k.procs p).next)
    → IsLevels k levels
    → IsLevels (record k { procs = g }) levels
IsLevels-same k g levels e ok = record {
  holds = λ q.
      let h = ok.holds q in
      record {
        chain = Chain-same k.procs g (k.queues q).head (levels q) e h.chain;
        ends = h.ends;
        distinct = h.distinct;
      };
  apart = ok.apart;
}

pub boosted_next :
    (k : Kernel) (p r : ℕ) → (set p (boosted (k.procs p)) k.procs r).next ≡ (k.procs r).next
boosted_next k p r = elim (Bool-cases (r == p)) [
  | inl e ↦ rw e (ap (λ i. (k.procs i).next) (sym ((==_iff r p).0 e)))
  | inr e ↦ rw e refl
]

-- Every process of the list is runnable.
unfoldable pub AllRunnable : Kernel → List ℕ → Type 0
AllRunnable k [] = Unit
AllRunnable k (p ∷ ps) = (is_runnable (k.procs p) ≡ true) × AllRunnable k ps

pub AllRunnable-same :
    (k m : Kernel) (ps : List ℕ)
    → ((p : ℕ) → is_runnable (m.procs p) ≡ is_runnable (k.procs p))
    → AllRunnable k ps
    → AllRunnable m ps
unfolding AllRunnable
AllRunnable-same k m [] e a = tt
AllRunnable-same k m (p ∷ ps) e a = (e p ∙ a.0, AllRunnable-same k m ps e a.1)

pub set_runnable :
    (f : ℕ → Proc) (p r : ℕ) (v : Proc)
    → is_runnable v ≡ is_runnable (f p)
    → is_runnable (set p v f r) ≡ is_runnable (f r)
set_runnable f p r v h = elim (Bool-cases (r == p)) [
  | inl e ↦ rw e (h ∙ ap (λ i. is_runnable (f i)) (sym ((==_iff r p).0 e)))
  | inr e ↦ rw e refl
]

append_to_runnable :
    (q p r : ℕ) (tail : Option ℕ) (k : Kernel)
    → is_runnable ((append_to q p tail k).procs r) ≡ is_runnable (k.procs r)
append_to_runnable q p r none k = refl
append_to_runnable q p r (some t) k =
    set_runnable k.procs t r (record (k.procs t) { next = some p }) refl

pub enqueue_runnable :
    (q p r : ℕ) (k : Kernel) → is_runnable ((enqueue q p k).procs r) ≡ is_runnable (k.procs r)
unfolding enqueue
enqueue_runnable q p r k =
    append_to_runnable q p r (k.queues q).tail (set_next p none k)
    ∙ set_runnable k.procs p r (record (k.procs p) { next = none }) refl

pub take_head_runnable :
    (q r : ℕ) (o : Option ℕ) (k : Kernel)
    → is_runnable ((take_head q o k).1.procs r) ≡ is_runnable (k.procs r)
take_head_runnable q r none k = refl
take_head_runnable q r (some p) k =
    set_runnable k.procs p r (record (k.procs p) { next = none }) refl
