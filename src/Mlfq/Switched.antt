-- ===== src/Mlfq/Switched.antt =====
-- The process that the scheduler of xv6/kernel/proc.c switches to, and what the timer interrupt does to
-- the queues.
use c_shell.Base.{
  ℕ, ◌+◌, ◌≤◌, ◌<◌, ◌≡◌, refl, ap, sym, subst, ◌∙◌, true, false, List, Option, some, none, inl, inr,
  ◌⊎◌, leb, Bool-cases, arith,
}
use c_shell.Mlfq.{
  runnable, running, Proc, Kernel, is_runnable, state_runnable, set, deque_highest_priority_p,
  time_slice, timer, yield,
}
use c_shell.Mlfq.Fifo.{set_same}
use c_shell.Mlfq.Levels.{IsLevels, pushed}
use c_shell.Mlfq.Highest.{deque_highest-Picks}
use c_shell.Mlfq.Processes.{nproc, update}
use c_shell.Mlfq.Clock.{dispatched, scheduler, usertrap}
use c_shell.Mlfq.Ready.{
  mem, in_queue, IsReady, Ready, IsRunning, plain, change-IsReady, woken-IsReady,
}
use c_shell.Mlfq.Woken.{runs-out}
use c_shell.Mlfq.Chosen.{
  Empty, split-First, deque_highest_plain, switch-none, switch-some, plain-IsReady, mem-first,
  in_queue-runnable, in_queue-priority, behind-Empty, taken-IsReady,
}

-- The scheduler finds none and no process is runnable, or it switches to this one, which is runnable, of
-- the least priority number, and runs afterwards.
abbrev pub Switched : Kernel → Option ℕ × Kernel → Type 0
Switched k r =
    Ready r.1
    × (((r.0 ≡ none) × ((p : ℕ) → is_runnable (k.procs p) ≡ false))
        ⊎ ((p : ℕ) × (r.0 ≡ some p)
            × (is_runnable (k.procs p) ≡ true)
            × IsRunning r.1 p
            × ((s : ℕ)
                → is_runnable (k.procs s) ≡ true
                → (k.procs p).priority ≤ (k.procs s).priority)))

listed_low :
    (k : Kernel) (levels : ℕ → List ℕ) (p : ℕ)
    → IsReady k levels
    → is_runnable (k.procs p) ≡ true
    → p < nproc
listed_low k levels p ok run = elim (Bool-cases (leb nproc p)) [
  | inl e ↦ absurd (ground (arith, sym run ∙ ok.inside p (ground (arith, e))))
  | inr e ↦ ground (arith, e)
]

none_runnable :
    (k : Kernel) (levels : ℕ → List ℕ) (p : ℕ)
    → IsReady k levels
    → Empty 0 4 levels
    → is_runnable (k.procs p) ≡ false
none_runnable k levels p ok empty = elim (Bool-cases (is_runnable (k.procs p))) [
  | inl run ↦ absurd (omega (arith, behind-Empty k levels 4 p ok empty run, ok.bounded p))
  | inr e ↦ e
]

-- In a kernel whose queues hold the runnable processes of each priority, the scheduler finds none
-- exactly if no process is runnable; else it switches to a runnable process such that none of lower
-- priority number is, which runs afterwards, and the queues hold the others.
pub scheduler-Switched : (ticks : ℕ) (k : Kernel) → Ready k → Switched k (scheduler ticks k)
unfolding scheduler
scheduler-Switched ticks k (levels, ok) =
    let d = deque_highest_priority_p k in
    let picks = deque_highest-Picks k levels ok.linked in
    let same : (r : ℕ) → plain (d.1.procs r) ≡ plain (k.procs r) = λ r. deque_highest_plain r k in
    elim (split-First 4 0 levels) [
      | inl (f, w, empty) ↦ rw (switch-none ticks d (picks.0 ∙ f)) (
        (levels, plain-IsReady k d.1 levels ok (subst (IsLevels d.1) w picks.1) same),
        inl (refl, λ p. none_runnable k levels p ok empty),
      )
      | inr (q, p, ps, e, f, w, empty) ↦
          let v = dispatched ticks (d.1.procs p) in
          let listed : in_queue (k.procs p) q ≡ true =
            sym (ok.stands p q) ∙ ap (mem p) e ∙ mem-first p ps in
          let run = in_queue-runnable (k.procs p) q listed in
          rw (switch-some ticks p d (picks.0 ∙ f) (ap is_runnable (same p) ∙ run)) (
            (
              set q ps levels,
              taken-IsReady k d.1 levels q p ps v ok e (subst (IsLevels d.1) w picks.1) same refl
                  (subst (λ w. w.priority ≤ 3) (sym (same p)) (ok.bounded p)),
            ),
            inr (
              p,
              refl,
              run,
              record {
                low = listed_low k levels p ok run;
                runs = ap (λ w. w.state) (set_same p v d.1.procs);
              },
              λ s other.
                  rw (in_queue-priority (k.procs p) q listed)
                    (behind-Empty k levels q s ok empty other),
            ),
          )
    ]

timer-keeps :
    (k : Kernel) (v : Proc)
    → v.priority ≤ 3
    → ((timer k v).1.priority ≤ 3) × ((timer k v).1.state ≡ v.state)
unfolding timer
timer-keeps k v small = elim (Bool-cases (leb (time_slice v.priority) (v.ticks_used + 1))) [
  | inl e ↦ rw e (ground (arith, small), refl)
  | inr e ↦ rw e (small, refl)
]

yield-Ready : (p : ℕ) (k : Kernel) → IsRunning k p → Ready k → Ready (yield p k)
unfolding yield
yield-Ready p k run h =
    let v = record (k.procs p) { state = runnable } in
    (
      pushed v.priority p h.0,
      woken-IsReady k h.0 p v h.1 (runs-out k p run) refl (h.1.bounded p) run.low,
    )

pub usertrap-Ready : (p : ℕ) (k : Kernel) → IsRunning k p → Ready k → Ready (usertrap p k)
unfolding usertrap
usertrap-Ready p k run h =
    let v : Proc = record (k.procs p) { rtime = (k.procs p).rtime + 1 } in
    let r = timer k v in
    let kept = timer-keeps k v (h.1.bounded p) in
    let k1 = update p r.1 k in
    let runs : r.1.state ≡ running = kept.1 ∙ run.runs in
    let h1 : Ready k1 =
      (h.0, change-IsReady k h.0 p r.1 h.1 (runs-out k p run) (ap state_runnable runs) kept.0) in
    let run1 : IsRunning k1 p = record {
      low = run.low;
      runs = ap (λ w. w.state) (set_same p r.1 k.procs) ∙ runs;
    } in
    elim (Bool-cases r.0) [ inl e ↦ rw e (yield-Ready p k1 run1 h1) | inr e ↦ rw e h1 ]
