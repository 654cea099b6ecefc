-- ===== src/Mlfq/Ready.antt =====
-- Which processes stand in the queues of xv6/kernel/proc.c, and the three kinds of change to a process
-- that keep it so.
use c_shell.Base.{
  ℕ, ◌≤◌, ◌<◌, ◌≡◌, ◌≢◌, refl, ap, sym, subst, ◌∙◌, Bool, true, false, List, [], ◌∷◌, ◌++◌, Option,
  some, none, inl, inr, ◌==◌, ==_iff, Bool-cases, if◌then◌else◌, NotIn, ◌||◌, arith,
}
use c_shell.Mlfq.{running, Proc, Kernel, is_runnable, set, set_next, append_to, enqueue}
use c_shell.Mlfq.Fifo.{Chain-set}
use c_shell.Mlfq.Levels.{IsLevels, pushed, enqueue-IsLevels, at_levels}
use c_shell.Mlfq.Runnable.{IsLevels-same}
use c_shell.Mlfq.Processes.{nproc, update}

-- Whether the process is in the list.
unfoldable pub mem : ℕ → List ℕ → Bool
mem p [] = false
mem p (q ∷ qs) = let rest = mem p qs in if p == q then true else rest

-- Whether the process belongs in queue `q`.
abbrev pub in_queue : Proc → ℕ → Bool
in_queue v q = if is_runnable v then v.priority == q else false

-- The queues are linked lists without a common process, and each holds the runnable processes of its
-- priority; priorities are at most 3, and no process outside the table is runnable.
pub record IsReady (k : Kernel) (levels : ℕ → List ℕ) : Type 0 where
  pub linked : IsLevels k levels
  pub stands : (p q : ℕ) → mem p (levels q) ≡ in_queue (k.procs p) q
  pub bounded : (p : ℕ) → (k.procs p).priority ≤ 3
  pub inside : (p : ℕ) → nproc ≤ p → is_runnable (k.procs p) ≡ false

-- Some lists are those that the queues hold.
abbrev pub Ready : Kernel → Type 0
Ready k = (levels : ℕ → List ℕ) × IsReady k levels

-- A process that runs, as `myproc()` does.
pub record IsRunning (k : Kernel) (p : ℕ) : Type 0 where
  pub low : p < nproc
  pub runs : (k.procs p).state ≡ running

pub mem-NotIn : (p : ℕ) (ps : List ℕ) → mem p ps ≡ false → NotIn p ps
unfolding mem
mem-NotIn p [] h = tt
mem-NotIn p (q ∷ qs) h = (ground (arith, h), mem-NotIn p qs (ground (arith, h)))

pub NotIn-mem : (p : ℕ) (ps : List ℕ) → NotIn p ps → mem p ps ≡ false
unfolding mem
NotIn-mem p [] h = refl
NotIn-mem p (q ∷ qs) h = ground (arith, h.0, NotIn-mem p qs h.1)

pub mem-append : (p : ℕ) (xs ys : List ℕ) → mem p (xs ++ ys) ≡ (mem p xs || mem p ys)
unfolding mem
mem-append p [] ys = refl
mem-append p (x ∷ xs) ys = ground (arith, mem-append p xs ys)

-- A process but for its pointer.
abbrev pub plain : Proc → Proc
plain v = record v { next = none }

pub set_plain :
    (f : ℕ → Proc) (p r : ℕ) (v : Proc) → plain v ≡ plain (f p) → plain (set p v f r) ≡ plain (f r)
set_plain f p r v h = elim (Bool-cases (r == p)) [
  | inl e ↦ rw e (h ∙ ap (λ i. plain (f i)) (sym ((==_iff r p).0 e)))
  | inr e ↦ rw e refl
]

append_to_plain :
    (q p r : ℕ) (tail : Option ℕ) (k : Kernel)
    → plain ((append_to q p tail k).procs r) ≡ plain (k.procs r)
append_to_plain q p r none k = refl
append_to_plain q p r (some t) k = set_plain k.procs t r (record (k.procs t) { next = some p }) refl

-- `enqueue` changes nothing of a process but its pointer.
pub enqueue_plain : (q p r : ℕ) (k : Kernel) → plain ((enqueue q p k).procs r) ≡ plain (k.procs r)
unfolding enqueue
enqueue_plain q p r k =
    append_to_plain q p r (k.queues q).tail (set_next p none k)
    ∙ set_plain k.procs p r (record (k.procs p) { next = none }) refl

-- A process that stands in no queue.
pub out_of_queue :
    (k : Kernel) (levels : ℕ → List ℕ) (p : ℕ)
    → IsReady k levels
    → is_runnable (k.procs p) ≡ false
    → (q : ℕ) → NotIn p (levels q)
out_of_queue k levels p ok h q =
    mem-NotIn p (levels q)
      (ok.stands p q ∙ ap (λ b. if b then (k.procs p).priority == q else false) h)

-- A process that stands in no queue may change as it likes.
pub unqueued-IsLevels :
    (k : Kernel) (levels : ℕ → List ℕ) (p : ℕ) (v : Proc)
    → IsLevels k levels
    → ((q : ℕ) → NotIn p (levels q))
    → IsLevels (update p v k) levels
unqueued-IsLevels k levels p v ok away = record {
  holds = λ q.
      let h = ok.holds q in
      record {
        chain = Chain-set k.procs p v (k.queues q).head (levels q) (away q) h.chain;
        ends = h.ends;
        distinct = h.distinct;
      };
  apart = ok.apart;
}

aside : (b : Bool) (r p n q : ℕ) → p ≢ r → (b || (if r == p then n == q else false)) ≡ b
aside b r p n q other = ground (arith, other)

-- A process that is not runnable may change as it likes, while it stays so.
pub change-IsReady :
    (k : Kernel) (levels : ℕ → List ℕ) (p : ℕ) (v : Proc)
    → IsReady k levels
    → is_runnable (k.procs p) ≡ false
    → is_runnable v ≡ false
    → v.priority ≤ 3
    → IsReady (update p v k) levels
change-IsReady k levels p v ok before after small =
    let away = out_of_queue k levels p ok before in
    record {
      linked = unqueued-IsLevels k levels p v ok.linked away;
      stands = λ r q.
          at_levels (λ r w. mem r (levels q) ≡ in_queue w q) p v k.procs
            (rw after (NotIn-mem p (levels q) (away q))) (λ r other. ok.stands r q) r;
      bounded = at_levels (λ r w. w.priority ≤ 3) p v k.procs small (λ r other. ok.bounded r);
      inside =
          at_levels (λ r w. nproc ≤ r → is_runnable w ≡ false) p v k.procs (λ far. after)
            (λ r other. ok.inside r);
    }

-- Changes of what the queues do not read.
abbrev pub Same : Proc → Proc → Type 0
Same v w = (v.next ≡ w.next) × (is_runnable v ≡ is_runnable w) × (v.priority ≡ w.priority)

pub Same-IsReady :
    (k : Kernel) (levels : ℕ → List ℕ) (g : ℕ → Proc)
    → IsReady k levels
    → ((p : ℕ) → Same (g p) (k.procs p))
    → IsReady (record k { procs = g }) levels
Same-IsReady k levels g ok same = record {
  linked = IsLevels-same k g levels (λ p. (same p).0) ok.linked;
  stands = λ p q. rw ((same p).1, (same p).2) (ok.stands p q);
  bounded = λ p. rw (same p).2 (ok.bounded p);
  inside = λ p far. (same p).1 ∙ ok.inside p far;
}

pub keep-IsReady :
    (k : Kernel) (levels : ℕ → List ℕ) (p : ℕ) (v : Proc)
    → IsReady k levels
    → Same v (k.procs p)
    → IsReady (update p v k) levels
keep-IsReady k levels p v ok same =
    Same-IsReady k levels (set p v k.procs) ok
      (at_levels (λ r w. Same w (k.procs r)) p v k.procs same (λ r other. (refl, refl, refl)))

-- The queues behind a process that becomes runnable.
pushed-mem :
    (r p q s : ℕ) (levels : ℕ → List ℕ)
    → mem r (pushed q p levels s) ≡ (mem r (levels s) || (if r == p then q == s else false))
unfolding mem
pushed-mem r p q s levels =
    at_levels (λ s xs. mem r xs ≡ (mem r (levels s) || (if r == p then q == s else false))) q
      (levels q ++ p ∷ []) levels (mem-append r (levels q) (p ∷ []) ∙ ground (arith))
      (λ s other. ground (arith, other)) s

-- A process that was not runnable becomes so and goes to the queue of its priority.
pub woken-IsReady :
    (k : Kernel) (levels : ℕ → List ℕ) (p : ℕ) (v : Proc)
    → IsReady k levels
    → is_runnable (k.procs p) ≡ false
    → is_runnable v ≡ true
    → v.priority ≤ 3
    → p < nproc
    → IsReady (enqueue v.priority p (update p v k)) (pushed v.priority p levels)
woken-IsReady k levels p v ok before after small low =
    let away = out_of_queue k levels p ok before in
    let k1 = update p v k in
    let k2 = enqueue v.priority p k1 in
    let same : (r : ℕ) → plain (k2.procs r) ≡ plain (set p v k.procs r) =
      λ r. enqueue_plain v.priority p r k1 in
    record {
      linked =
          enqueue-IsLevels v.priority p k1 levels (unqueued-IsLevels k levels p v ok.linked away)
            away;
      stands = λ r q.
          pushed-mem r p v.priority q levels
          ∙ at_levels
              (λ r w.
                (mem r (levels q) || (if r == p then v.priority == q else false)) ≡ in_queue w q)
              p v k.procs (rw (after, NotIn-mem p (levels q) (away q)) (ground arith))
              (λ r other. aside (mem r (levels q)) r p v.priority q other ∙ ok.stands r q) r
          ∙ sym (ap (λ w. in_queue w q) (same r));
      bounded = λ r.
          subst (λ w. w.priority ≤ 3) (sym (same r))
            (at_levels (λ r w. w.priority ≤ 3) p v k.procs small (λ r other. ok.bounded r) r);
      inside = λ r far.
          ap is_runnable (same r)
          ∙ at_levels (λ r w. nproc ≤ r → is_runnable w ≡ false) p v k.procs
              (λ far. absurd (omega (arith, far, low))) (λ r other. ok.inside r) r far;
    }
