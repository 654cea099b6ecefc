-- ===== src/Mlfq/Boosted.antt =====
-- That the clock interrupt of xv6/kernel/trap.c ends and keeps the queues, the boost included.
use c_shell.Base.{
  ℕ, zero, suc, ◌+◌, ◌%◌, ◌^◌, ◌≤◌, ◌<◌, ◌≡◌, refl, ap, sym, ◌∙◌, Bool, true, false, ◌||◌, List, [],
  ◌∷◌, ◌++◌, some, length, inl, inr, ◌==◌, Bool-cases, if◌then◌else◌, arith,
}
use c_shell.Mlfq.{Proc, Kernel, is_runnable}
use c_shell.Mlfq.Levels.{IsLevels}
use c_shell.Mlfq.Runnable.{AllRunnable}
use c_shell.Mlfq.Boost.{mlfq_boost_lem}
use c_shell.Mlfq.Processes.{Machine, nproc, wakeup}
use c_shell.Mlfq.Clock.{
  waited, update_waiting_ticks, ticks_channel, boost_if, with_kernel, clockintr,
}
use c_shell.Mlfq.Ready.{mem, IsReady, Ready, Same, mem-append, Same-IsReady}
use c_shell.Mlfq.Chosen.{in_queue-runnable}
use c_shell.Mlfq.Woken.{wakeup-Keeps}
use c_shell.Mlfq.Fewer.{length-few}

waited-Same : (v : Proc) → Same (waited v) v
waited-Same v = elim (Bool-cases (is_runnable v)) [
  | inl e ↦ rw e (refl, e, refl)
  | inr e ↦ rw e (refl, e, refl)
]

mem-AllRunnable :
    (k : Kernel) (ps : List ℕ)
    → ((p : ℕ) → mem p ps ≡ true → is_runnable (k.procs p) ≡ true)
    → AllRunnable k ps
unfolding AllRunnable mem
mem-AllRunnable k [] h = tt
mem-AllRunnable k (p ∷ ps) h =
    (h p (ground arith), mem-AllRunnable k ps (λ r m. h r (ground (arith, m))))

queue-AllRunnable :
    (k : Kernel) (levels : ℕ → List ℕ) → IsReady k levels → (q : ℕ) → AllRunnable k (levels q)
queue-AllRunnable k levels ok q =
    mem-AllRunnable k (levels q) (λ p m. in_queue-runnable (k.procs p) q (sym (ok.stands p q) ∙ m))

queue-short :
    (k : Kernel) (levels : ℕ → List ℕ) → IsReady k levels → (q : ℕ) → length (levels q) < nproc + 1
queue-short k levels ok q = omega (
  arith,
  length-few nproc (levels q) (ok.linked.holds q).distinct (λ p far.
      ok.stands p q ∙ ap (λ b. if b then (k.procs p).priority == q else false) (ok.inside p far)),
)

-- The one queue that is left has the processes of all.
gathered :
    (b : Bool) (n : ℕ)
    → n ≤ 3
    → ((((if b then n == 0 else false) || (if b then n == 1 else false))
          || (if b then n == 2 else false))
        || (if b then n == 3 else false))
      ≡ b
gathered b n small = ground (arith, small)

all_listed :
    (k : Kernel) (levels : ℕ → List ℕ) (p : ℕ)
    → IsReady k levels
    → mem p (((levels 0 ++ levels 1) ++ levels 2) ++ levels 3) ≡ is_runnable (k.procs p)
all_listed k levels p ok =
    let up01 = levels 0 ++ levels 1 in
    rw
      (
        mem-append p (up01 ++ levels 2) (levels 3),
        mem-append p up01 (levels 2),
        mem-append p (levels 0) (levels 1),
        ok.stands p 0,
        ok.stands p 1,
        ok.stands p 2,
        ok.stands p 3,
      )
      (gathered (is_runnable (k.procs p)) (k.procs p).priority (ok.bounded p))

own_queue : (b : Bool) → b ≡ (if b then 0 == 0 else false)
own_queue b = ground arith

empty_queue : (b : Bool) (r : ℕ) → false ≡ (if b then 0 == suc r else false)
empty_queue b r = ground arith

beyond :
    (b : Bool) (n r : ℕ)
    → n ≤ 3
    → (if b then n == suc (suc (suc (suc r))) else false)
      ≡ (if b then 0 == suc (suc (suc (suc r))) else false)
beyond b n r small = ground (arith, small)

-- The processes of `k`, runnable as before and in queue 0, which alone holds processes.
boosted-IsReady :
    (k k' : Kernel) (levels levels' : ℕ → List ℕ)
    → IsReady k levels
    → IsLevels k' levels'
    → levels' 0 ≡ ((levels 0 ++ levels 1) ++ levels 2) ++ levels 3
    → levels' 1 ≡ []
    → levels' 2 ≡ []
    → levels' 3 ≡ []
    → ((p : ℕ) → (k'.procs p).priority ≡ 0)
    → ((p : ℕ) → is_runnable (k'.procs p) ≡ is_runnable (k.procs p))
    → ((q : ℕ) → 3 < q → levels' q ≡ levels q)
    → IsReady k' levels'
unfolding mem
boosted-IsReady k k' levels levels' ok linked e0 e1 e2 e3 top run far = record {
  linked = linked;
  stands = λ p q.
      rw (top p, run p)
        (let b = is_runnable (k.procs p) in
          let n = (k.procs p).priority in
          let nowhere : (r : ℕ)
              → levels' (suc r) ≡ []
              → mem p (levels' (suc r)) ≡ (if b then 0 == suc r else false) =
            λ r e. ap (mem p) e ∙ empty_queue b r in
          elim q as (λ q. mem p (levels' q) ≡ (if b then 0 == q else false)) [
            | zero ↦ ap (mem p) e0 ∙ all_listed k levels p ok ∙ own_queue b
            | suc zero ↦ nowhere 0 e1
            | suc (suc zero) ↦ nowhere 1 e2
            | suc (suc (suc zero)) ↦ nowhere 2 e3
            | suc (suc (suc (suc r))) ↦
                ap (mem p) (far (suc (suc (suc (suc r)))) (omega arith))
                ∙ ok.stands p (suc (suc (suc (suc r))))
                ∙ beyond b n r (ok.bounded p)
          ]);
  bounded = λ p. omega (arith, top p);
  inside = λ p out. run p ∙ ok.inside p out;
}

boost_if-Ready :
    (b : Bool) (k : Kernel) → Ready k → (k' : Kernel) × (boost_if b k ≡ some k') × Ready k'
unfolding boost_if
boost_if-Ready false k h = (k, refl, h)
boost_if-Ready true k (levels, ok) =
    let (k', levels', e, linked, e0, e1, e2, e3, top, run, far) =
      mlfq_boost_lem (nproc + 1) k levels ok.linked (queue-AllRunnable k levels ok)
        (queue-short k levels ok) in
    (
      k',
      e,
      (levels', boosted-IsReady k k' levels levels' ok linked e0 e1 e2 e3 (λ p. (top p).0) run far),
    )

-- The clock interrupt ends, and the queues hold the runnable processes of each priority if they did
-- before, boost or not.
pub clockintr-Ready :
    (m : Machine) → Ready m.kernel → (m' : Machine) × (clockintr m ≡ some m') × Ready m'.kernel
unfolding clockintr update_waiting_ticks
clockintr-Ready m h =
    let k = wakeup (some ticks_channel) m.kernel in
    let (levels, ok) = (wakeup-Keeps (some ticks_channel) m.kernel).0 h in
    let ticks = (m.ticks + 1) % 2 ^ 32 in
    let counted : Ready (update_waiting_ticks k) =
      (levels, Same-IsReady k levels (λ p. waited (k.procs p)) ok (λ p. waited-Same (k.procs p))) in
    let (k', e, h') = boost_if-Ready (ticks % 48 == 0) (update_waiting_ticks k) counted in
    (record m { kernel = k'; ticks = ticks }, ap (with_kernel m ticks) e, h')
