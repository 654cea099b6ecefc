-- ===== src/Mlfq/Chosen.antt =====
-- What the scheduler's choice in xv6/kernel/proc.c leaves of the queues.
use c_shell.Base.{
  ℕ, zero, suc, ◌+◌, ◌≤◌, ◌<◌, ◌≡◌, ◌≢◌, refl, ap, sym, subst, ◌∙◌, true, false, List, [], ◌∷◌,
  Option, some, none, inl, inr, ◌⊎◌, leb, ◌==◌, ==_iff, Bool-cases, arith,
}
use c_shell.Mlfq.{
  Proc, Kernel, is_runnable, set, take_head, deque, or_else, deque_from, deque_highest_priority_p,
}
use c_shell.Mlfq.Levels.{IsLevels, at_levels}
use c_shell.Mlfq.Highest.{first_from, without_first, List-cases}
use c_shell.Mlfq.Boost.{taken-NotIn}
use c_shell.Mlfq.Processes.{nproc, update}
use c_shell.Mlfq.Clock.{dispatched, switch_to}
use c_shell.Mlfq.Ready.{mem, in_queue, IsReady, plain, set_plain, NotIn-mem, unqueued-IsLevels}

-- The queues from `i` on, `left` of them, are empty, or this is the first that is not.
abbrev pub Empty : ℕ → ℕ → (ℕ → List ℕ) → Type 0
Empty i end levels = (r : ℕ) → i ≤ r → r < end → levels r ≡ []

abbrev First : ℕ → ℕ → (ℕ → List ℕ) → Type 0
First left i levels =
    ((first_from left i levels ≡ none)
      × (without_first left i levels ≡ levels)
      × Empty i (i + left) levels)
    ⊎ ((q : ℕ) × (p : ℕ) × (ps : List ℕ) × (levels q ≡ p ∷ ps)
        × (first_from left i levels ≡ some p)
        × (without_first left i levels ≡ set q ps levels)
        × Empty i q levels)

Empty-from :
    (i end : ℕ) (levels : ℕ → List ℕ)
    → levels i ≡ []
    → Empty (suc i) end levels
    → Empty i end levels
Empty-from i end levels e rest r low high = elim (Bool-cases (r == i)) [
  | inl s ↦ subst (λ x. levels x ≡ []) (sym ((==_iff r i).0 s)) e
  | inr n ↦ rest r (ground (arith, low, n)) high
]

pub split-First : (left i : ℕ) (levels : ℕ → List ℕ) → First left i levels
unfolding first_from without_first
split-First zero i levels = inl (refl, refl, λ r low high. absurd (omega (arith, low, high)))
split-First (suc left) i levels = elim (List-cases (levels i)) [
  | inr (p, ps, e) ↦
      inr (i, p, ps, e, rw e refl, rw e refl, λ r low high. absurd (omega (arith, low, high)))
  | inl e ↦ elim (split-First left (suc i) levels) [
    | inl (f, w, h) ↦ inl (
      rw e f,
      rw e w,
      Empty-from i (i + suc left) levels e (λ r low high. h r low (omega (arith, high))),
    )
    | inr (q, p, ps, here, f, w, h) ↦
        inr (q, p, ps, here, rw e f, rw e w, Empty-from i q levels e h)
  ]
]

take_head_plain :
    (q r : ℕ) (o : Option ℕ) (k : Kernel) → plain ((take_head q o k).1.procs r) ≡ plain (k.procs r)
take_head_plain q r none k = refl
take_head_plain q r (some p) k = set_plain k.procs p r (record (k.procs p) { next = none }) refl

or_else_plain :
    (r : ℕ) (o : Option ℕ × Kernel) (rest : Kernel → Option ℕ × Kernel) (k : Kernel)
    → plain (o.1.procs r) ≡ plain (k.procs r)
    → ((k' : Kernel) → plain ((rest k').1.procs r) ≡ plain (k'.procs r))
    → plain ((or_else o rest).1.procs r) ≡ plain (k.procs r)
or_else_plain r (some p, k') rest k e h = e
or_else_plain r (none, k') rest k e h = h k' ∙ e

deque_from_plain :
    (left i r : ℕ) (k : Kernel) → plain ((deque_from left i k).1.procs r) ≡ plain (k.procs r)
unfolding deque_from deque
deque_from_plain zero i r k = refl
deque_from_plain (suc left) i r k =
    or_else_plain r (deque i k) (deque_from left (suc i)) k
      (take_head_plain i r (k.queues i).head k) (deque_from_plain left (suc i) r)

pub deque_highest_plain :
    (r : ℕ) (k : Kernel) → plain ((deque_highest_priority_p k).1.procs r) ≡ plain (k.procs r)
unfolding deque_highest_priority_p
deque_highest_plain r k = deque_from_plain 4 0 r k

pub switch-none : (ticks : ℕ) (d : Option ℕ × Kernel) → d.0 ≡ none → switch_to ticks d ≡ (none, d.1)
switch-none ticks (none, k) e = refl
switch-none ticks (some p, k) e = absurd (cc)

pub switch-some :
    (ticks p : ℕ) (d : Option ℕ × Kernel)
    → d.0 ≡ some p
    → is_runnable (d.1.procs p) ≡ true
    → switch_to ticks d ≡ (some p, update p (dispatched ticks (d.1.procs p)) d.1)
switch-some ticks p (none, k) e run = absurd (cc)
switch-some ticks p (some q, k) e run = let same : q ≡ p = cc in rw same (rw run refl)

-- Linked queues with the processes of `k` but for their pointers.
pub plain-IsReady :
    (k k' : Kernel) (levels : ℕ → List ℕ)
    → IsReady k levels
    → IsLevels k' levels
    → ((r : ℕ) → plain (k'.procs r) ≡ plain (k.procs r))
    → IsReady k' levels
plain-IsReady k k' levels ok linked same = record {
  linked = linked;
  stands = λ r q. ok.stands r q ∙ sym (ap (λ w. in_queue w q) (same r));
  bounded = λ r. subst (λ w. w.priority ≤ 3) (sym (same r)) (ok.bounded r);
  inside = λ r far. ap is_runnable (same r) ∙ ok.inside r far;
}

-- The others of a queue whose first process is taken.
mem-cut :
    (q p r s : ℕ) (ps : List ℕ) (levels : ℕ → List ℕ)
    → levels q ≡ p ∷ ps
    → p ≢ r
    → mem r (set q ps levels s) ≡ mem r (levels s)
unfolding mem
mem-cut q p r s ps levels e other =
    let away : (r == p) ≡ false = ground (arith, other) in
    at_levels (λ s xs. mem r xs ≡ mem r (levels s)) q ps levels (sym (ap (mem r) e ∙ rw away refl))
      (λ s ne. refl) s

pub mem-first : (p : ℕ) (ps : List ℕ) → mem p (p ∷ ps) ≡ true
unfolding mem
mem-first p ps = ground arith

pub in_queue-runnable : (v : Proc) (q : ℕ) → in_queue v q ≡ true → is_runnable v ≡ true
in_queue-runnable v q h = ground (arith, h)

pub in_queue-priority : (v : Proc) (q : ℕ) → in_queue v q ≡ true → v.priority ≡ q
in_queue-priority v q h = ground (arith, h)

stands_own : (v : Proc) → is_runnable v ≡ true → in_queue v v.priority ≡ true
stands_own v h = ground (arith, h)

mem-empty : (p : ℕ) (ps : List ℕ) → ps ≡ [] → mem p ps ≡ true → ⊥
unfolding mem
mem-empty p ps e m = ground (arith, sym m ∙ ap (mem p) e)

-- A runnable process stands behind the queues that are empty.
pub behind-Empty :
    (k : Kernel) (levels : ℕ → List ℕ) (end r : ℕ)
    → IsReady k levels
    → Empty 0 end levels
    → is_runnable (k.procs r) ≡ true
    → end ≤ (k.procs r).priority
behind-Empty k levels end r ok empty run = elim (Bool-cases (leb end (k.procs r).priority)) [
  | inl e ↦ ground (arith, e)
  | inr e ↦
      let q = (k.procs r).priority in
      let nothing : levels q ≡ [] = empty q (omega arith) (ground (arith, e)) in
      absurd (mem-empty r (levels q) nothing (ok.stands r q ∙ stands_own (k.procs r) run))
]

-- The process that is taken runs afterwards, and the others stand as they did.
pub taken-IsReady :
    (k k' : Kernel) (levels : ℕ → List ℕ) (q p : ℕ) (ps : List ℕ) (v : Proc)
    → IsReady k levels
    → levels q ≡ p ∷ ps
    → IsLevels k' (set q ps levels)
    → ((r : ℕ) → plain (k'.procs r) ≡ plain (k.procs r))
    → is_runnable v ≡ false
    → v.priority ≤ 3
    → IsReady (update p v k') (set q ps levels)
taken-IsReady k k' levels q p ps v ok e linked same out small =
    let away = taken-NotIn q p ps k levels ok.linked e in
    record {
      linked = unqueued-IsLevels k' (set q ps levels) p v linked away;
      stands = λ r s.
          at_levels (λ r w. mem r (set q ps levels s) ≡ in_queue w s) p v k'.procs
            (rw out (NotIn-mem p (set q ps levels s) (away s)))
            (λ r other.
              mem-cut q p r s ps levels e other
              ∙ ok.stands r s
              ∙ sym (ap (λ w. in_queue w s) (same r)))
            r;
      bounded =
          at_levels (λ r w. w.priority ≤ 3) p v k'.procs small
            (λ r other. subst (λ w. w.priority ≤ 3) (sym (same r)) (ok.bounded r));
      inside =
          at_levels (λ r w. nproc ≤ r → is_runnable w ≡ false) p v k'.procs (λ far. out)
            (λ r other far. ap is_runnable (same r) ∙ ok.inside r far);
    }
