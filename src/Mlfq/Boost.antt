-- ===== src/Mlfq/Boost.antt =====
-- What `mlfq_boost` of xv6/kernel/proc.c does to the four queues.
use c_shell.Base.{
  ℕ, zero, suc, ◌<◌, ◌≡◌, ◌≢◌, refl, ap, sym, subst, fun_ext, ◌∙◌, true, List, [], ◌∷◌, ◌++◌,
  Option, some, none, length, append_assoc, append-nil, NotIn, Distinct, if◌then◌else◌, arith,
}
use c_shell.Mlfq.{
  is_runnable, Kernel, set, enqueue, deque, boosted, boost_one, boost_rest, boost_queue, reset_all,
  mlfq_boost,
}
use c_shell.Mlfq.Fifo.{Holds, deque-Takes}
use c_shell.Mlfq.Levels.{Apart, IsLevels, pushed, enqueue-IsLevels, at_levels}
use c_shell.Mlfq.Highest.{deque-IsLevels}
use c_shell.Mlfq.Runnable.{
  IsLevels-same, boosted_next, AllRunnable, AllRunnable-same, set_runnable, enqueue_runnable,
  take_head_runnable,
}

-- The lists behind the loop over queue `q`.
abbrev pub moved : ℕ → (ℕ → List ℕ) → ℕ → List ℕ
moved q levels = set 0 (levels 0 ++ levels q) (set q [] levels)

boost_queue_empty :
    (rounds q : ℕ) (k : Kernel) → deque q k ≡ (none, k) → boost_queue (suc rounds) q k ≡ some k
unfolding boost_queue
boost_queue_empty rounds q k e = ap (λ r. boost_rest r (boost_queue rounds q)) e

boost_rest_found :
    (p : ℕ) (r : Option ℕ × Kernel) (go : Kernel → Option Kernel)
    → r.0 ≡ some p
    → boost_rest r go ≡ go (boost_one p r.1)
boost_rest_found p (some n, k) go e = ap (λ o. boost_rest (o, k) go) e
boost_rest_found p (none, k) go e = absurd (cc)

boost_queue_found :
    (rounds q p : ℕ) (k : Kernel)
    → (deque q k).0 ≡ some p
    → boost_queue (suc rounds) q k ≡ boost_queue rounds q (boost_one p (deque q k).1)
unfolding boost_queue
boost_queue_found rounds q p k e = boost_rest_found p (deque q k) (boost_queue rounds q) e

boost_one_runs :
    (p : ℕ) (k : Kernel)
    → is_runnable (k.procs p) ≡ true
    → boost_one p k ≡ enqueue 0 p (record k { procs = set p (boosted (k.procs p)) k.procs })
unfolding boost_one
boost_one_runs p k run =
    ap
      (λ b. if b then enqueue 0 p (record k { procs = set p (boosted (k.procs p)) k.procs }) else k)
      run

-- A runnable process that stands in no queue goes to the end of queue 0.
boost_one-IsLevels :
    (p : ℕ) (k : Kernel) (levels : ℕ → List ℕ)
    → IsLevels k levels
    → ((r : ℕ) → NotIn p (levels r))
    → is_runnable (k.procs p) ≡ true
    → IsLevels (boost_one p k) (pushed 0 p levels)
      × ((r : ℕ) → is_runnable ((boost_one p k).procs r) ≡ is_runnable (k.procs r))
boost_one-IsLevels p k levels ok away run =
    let g = set p (boosted (k.procs p)) k.procs in
    let k' : Kernel = record k { procs = g } in
    rw (boost_one_runs p k run) (
      enqueue-IsLevels 0 p k' levels (IsLevels-same k g levels (boosted_next k p) ok) away,
      λ r. enqueue_runnable 0 p r k' ∙ set_runnable k.procs p r (boosted (k.procs p)) refl,
    )

deque_runnable :
    (q r : ℕ) (k : Kernel) → is_runnable ((deque q k).1.procs r) ≡ is_runnable (k.procs r)
unfolding deque
deque_runnable q r k = take_head_runnable q r (k.queues q).head k

-- The first process of a queue stands in no list once it is taken.
pub taken-NotIn :
    (q p : ℕ) (ps : List ℕ) (k : Kernel) (levels : ℕ → List ℕ)
    → IsLevels k levels
    → levels q ≡ p ∷ ps
    → (r : ℕ) → NotIn p (set q ps levels r)
taken-NotIn q p ps k levels ok e =
    let here = subst Distinct e (ok.holds q).distinct in
    at_levels (λ r xs. NotIn p xs) q ps levels here.0
      (λ r other. (subst (λ xs. Apart xs (levels r)) e (ok.apart q r other)).0)

-- One process moved, and then the others.
moved_step :
    (q p : ℕ) (ps : List ℕ) (levels : ℕ → List ℕ)
    → q ≢ 0
    → levels q ≡ p ∷ ps
    → (r : ℕ) → moved q (pushed 0 p (set q ps levels)) r ≡ moved q levels r
moved_step q p ps levels nz e r = ground (arith, nz, e, append_assoc (levels 0) (p ∷ []) ps)

moved_none : (q : ℕ) (levels : ℕ → List ℕ) → levels q ≡ [] → (r : ℕ) → moved q levels r ≡ levels r
moved_none q levels e r = ground (arith, e, append-nil (levels 0))

pushed_behind :
    (q p : ℕ) (ps : List ℕ) (levels : ℕ → List ℕ) → q ≢ 0 → pushed 0 p (set q ps levels) q ≡ ps
pushed_behind q p ps levels nz = ground (arith, nz)

boost_queue-IsLevels :
    (rounds q : ℕ) (ps : List ℕ) (k : Kernel) (levels : ℕ → List ℕ)
    → q ≢ 0
    → IsLevels k levels
    → levels q ≡ ps
    → AllRunnable k ps
    → length ps < rounds
    → (k' : Kernel) × (boost_queue rounds q k ≡ some k')
      × IsLevels k' (moved q levels)
      × ((r : ℕ) → is_runnable (k'.procs r) ≡ is_runnable (k.procs r))
unfolding AllRunnable
boost_queue-IsLevels zero q ps k levels nz ok e run h = absurd (omega arith)
boost_queue-IsLevels (suc rounds) q [] k levels nz ok e run h =
    let nothing = deque-Takes q k [] (subst (Holds k (k.queues q)) e (ok.holds q)) in
    (
      k,
      boost_queue_empty rounds q k nothing,
      subst (IsLevels k) (fun_ext (λ r. sym (moved_none q levels e r))) ok,
      λ r. refl,
    )
boost_queue-IsLevels (suc rounds) q (p ∷ ps) k levels nz ok e run h =
    let taken = deque-IsLevels q p ps k levels ok e in
    let k1 = (deque q k).1 in
    let l1 = set q ps levels in
    let runs : is_runnable (k1.procs p) ≡ true = deque_runnable q p k ∙ run.0 in
    let one = boost_one-IsLevels p k1 l1 taken.1 (taken-NotIn q p ps k levels ok e) runs in
    let same : (r : ℕ) → is_runnable ((boost_one p k1).procs r) ≡ is_runnable (k.procs r) =
      λ r. one.1 r ∙ deque_runnable q r k in
    let rest =
      boost_queue-IsLevels rounds q ps (boost_one p k1) (pushed 0 p l1) nz one.0
        (pushed_behind q p ps levels nz) (AllRunnable-same k (boost_one p k1) ps same run.1)
        (omega (arith, h)) in
    (
      rest.0,
      boost_queue_found rounds q p k taken.0 ∙ rest.1,
      subst (IsLevels rest.0) (fun_ext (moved_step q p ps levels nz e)) rest.2,
      λ r. rest.3 r ∙ same r,
    )

moved_far : (q : ℕ) (levels : ℕ → List ℕ) → 3 < q → moved 3 (moved 2 (moved 1 levels)) q ≡ levels q
moved_far q levels far = ground (arith, far)

-- With more rounds for each loop than processes in a queue, and every queued process runnable, the boost
-- ends: queue 0 holds its processes, then those of queues 1, 2 and 3 in their order, the others are
-- empty, and every process has priority 0 and no tick used.
pub mlfq_boost_lem :
    (rounds : ℕ) (k : Kernel) (levels : ℕ → List ℕ)
    → IsLevels k levels
    → ((q : ℕ) → AllRunnable k (levels q))
    → ((q : ℕ) → length (levels q) < rounds)
    → (k' : Kernel) × (levels' : ℕ → List ℕ) × (mlfq_boost rounds k ≡ some k')
      × IsLevels k' levels'
      × (levels' 0 ≡ ((levels 0 ++ levels 1) ++ levels 2) ++ levels 3)
      × (levels' 1 ≡ [])
      × (levels' 2 ≡ [])
      × (levels' 3 ≡ [])
      × ((p : ℕ) → ((k'.procs p).priority ≡ 0) × ((k'.procs p).ticks_used ≡ 0))
      × ((p : ℕ) → is_runnable (k'.procs p) ≡ is_runnable (k.procs p))
      × ((q : ℕ) → 3 < q → levels' q ≡ levels q)
unfolding mlfq_boost
mlfq_boost_lem rounds k levels ok run enough =
    let a =
      boost_queue-IsLevels rounds 1 (levels 1) k levels (λ e. absurd (omega arith)) ok refl (run 1)
        (enough 1) in
    let b =
      boost_queue-IsLevels rounds 2 (levels 2) a.0 (moved 1 levels) (λ e. absurd (omega arith)) a.2
        refl (AllRunnable-same k a.0 (levels 2) a.3 (run 2)) (enough 2) in
    let c =
      boost_queue-IsLevels rounds 3 (levels 3) b.0 (moved 2 (moved 1 levels))
        (λ e. absurd (omega arith)) b.2 refl
        (AllRunnable-same a.0 b.0 (levels 3) b.3 (AllRunnable-same k a.0 (levels 3) a.3 (run 3)))
        (enough 3) in
    (
      reset_all c.0,
      moved 3 (moved 2 (moved 1 levels)),
      rw (a.1, b.1, c.1) refl,
      IsLevels-same c.0 (λ p. boosted (c.0.procs p)) _ (λ p. refl) c.2,
      refl,
      refl,
      refl,
      refl,
      λ p. (refl, refl),
      λ p. c.3 p ∙ b.3 p ∙ a.3 p,
      λ q far. moved_far q levels far,
    )
