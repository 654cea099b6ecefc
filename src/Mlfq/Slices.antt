-- ===== src/Mlfq/Slices.antt =====
-- The timer interrupt and the time slices of xv6/kernel/proc.c and trap.c.
use c_shell.Base.{
  ℕ, zero, suc, ◌+◌, ◌≤◌, ◌<◌, ◌≡◌, refl, ◌||◌, ltb, leb, Bool-cases, inl, inr, if◌then◌else◌,
  arith,
}
use c_shell.Mlfq.{Proc, Kernel, time_slice, ready_below, timer}

-- One of the four priorities, with a tick of its slice left.
pub record InSlice (p : Proc) : Type 0 where
  pub priority_ok : p.priority ≤ 3
  pub left : p.ticks_used < time_slice p.priority

time_slice_positive : (n : ℕ) → 1 ≤ time_slice n
time_slice_positive zero = omega arith
time_slice_positive (suc zero) = omega arith
time_slice_positive (suc (suc zero)) = omega arith
time_slice_positive (suc (suc (suc n))) = omega arith

-- At a timer interrupt a process within its slice has used it up exactly if this was its last tick:
-- then it moves down a queue, at most to the last, with no tick used, and yields. Else it keeps its
-- queue, has one more tick used, and yields exactly if a process waits in a higher queue. It is within
-- its slice afterwards.
pub timer_lem :
    (k : Kernel) (p : Proc)
    → InSlice p
    → let r = timer k p in
      let last = leb (time_slice p.priority) (p.ticks_used + 1) in
      InSlice r.1
      × (r.0 ≡ (last || ready_below p.priority k))
      × (r.1.ticks_used ≡ (if last then 0 else p.ticks_used + 1))
      × (r.1.priority
          ≡ (if last then (if ltb p.priority 3 then p.priority + 1 else 3) else p.priority))
unfolding timer
timer_lem k p ok = elim (Bool-cases (leb (time_slice p.priority) (p.ticks_used + 1))) [
  | inl last ↦
      let down = if ltb p.priority 3 then p.priority + 1 else p.priority in
      let in_range : down ≤ 3 = ground (arith, ok.priority_ok) in
      let ends : down ≡ (if ltb p.priority 3 then p.priority + 1 else 3) =
        ground (arith, ok.priority_ok) in
      rw last (record { priority_ok = in_range; left = time_slice_positive down }, refl, refl, ends)
  | inr more ↦
      rw more
        (record { priority_ok = ok.priority_ok; left = ground (arith, more) }, refl, refl, refl)
]
