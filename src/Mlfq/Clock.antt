-- ===== src/Mlfq/Clock.antt =====
-- What runs next: a round of the scheduler of xv6/kernel/proc.c, and the timer interrupt and the clock
-- of xv6/kernel/trap.c.
use c_shell.Base.{ℕ, ◌+◌, ◌%◌, ◌^◌, Bool, true, false, Option, some, none, ◌==◌, if◌then◌else◌}
use c_shell.Mlfq.{
  running, Channel, object, Proc, Kernel, is_runnable, deque_highest_priority_p, timer, yield,
  mlfq_boost,
}
use c_shell.Mlfq.Processes.{Machine, nproc, update, wakeup}

-- `if (p->first_run_tick == -1) p->first_run_tick = ticks`
abbrev pub first_tick : Option ℕ → ℕ → Option ℕ
first_tick none ticks = some ticks
first_tick (some t) ticks = some t

abbrev pub dispatched : ℕ → Proc → Proc
dispatched ticks v = record v {
  state = running;
  first_run_tick = first_tick v.first_run_tick ticks;
}

-- Behind the choice of the scheduler: the process that it switches to, if there is one.
abbrev pub switch_to : ℕ → Option ℕ × Kernel → Option ℕ × Kernel
switch_to ticks (none, k) = (none, k)
switch_to ticks (some p, k) =
    if is_runnable (k.procs p)
    then (some p, update p (dispatched ticks (k.procs p)) k)
    else (none, k)

unfoldable pub scheduler : ℕ → Kernel → Option ℕ × Kernel
unfolding deque_highest_priority_p
scheduler ticks k = switch_to ticks (deque_highest_priority_p k)

-- The timer interrupt in process `p`, behind the clock.
unfoldable pub usertrap : ℕ → Kernel → Kernel
unfolding timer yield
usertrap p k =
    let v : Proc = record (k.procs p) { rtime = (k.procs p).rtime + 1 } in
    let r = timer k v in let k' = update p r.1 k in if r.0 then yield p k' else k'

abbrev pub waited : Proc → Proc
waited v = if is_runnable v then record v { waiting_ticks = v.waiting_ticks + 1 } else v

unfoldable pub update_waiting_ticks : Kernel → Kernel
update_waiting_ticks k = record k { procs = λ p. waited (k.procs p) }

-- The address of `ticks`, which sys_pause sleeps on.
abbrev pub ticks_channel : Channel
ticks_channel = object 0

-- The boost's loops have a round more than there are processes.
unfoldable pub boost_if : Bool → Kernel → Option Kernel
unfolding mlfq_boost
boost_if false k = some k
boost_if true k = mlfq_boost (nproc + 1) k

abbrev pub with_kernel : Machine → ℕ → Option Kernel → Option Machine
with_kernel m ticks none = none
with_kernel m ticks (some k) = some (record m { kernel = k; ticks = ticks })

unfoldable pub clockintr : Machine → Option Machine
unfolding wakeup update_waiting_ticks boost_if
clockintr m =
    let t = (m.ticks + 1) % 2 ^ 32 in
    let k = update_waiting_ticks (wakeup (some ticks_channel) m.kernel) in
    with_kernel m t (boost_if (t % 48 == 0) k)
