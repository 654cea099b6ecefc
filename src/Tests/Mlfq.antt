-- ===== src/Tests/Mlfq.antt =====
-- The queues of the scheduler.
use c_shell.Base.{◌≡◌, refl, true, none, some}
use c_shell.Mlfq.{
  Kernel, enqueue, mlfq_tick, mlfq_timeslice_expired, deque_highest_priority_p, timer,
}
use c_shell.Mlfq.Life.{fresh}

abbrev idle : Kernel
idle = record { procs = λ p. fresh; queues = λ q. record { head = none; tail = none } }

-- The process enqueued last stands behind the one of its queue, and a higher queue comes first.
picks_run : (deque_highest_priority_p (enqueue 1 7 (enqueue 2 6 (enqueue 2 5 idle)))).0 ≡ some 7
unfolding deque_highest_priority_p enqueue
picks_run = refl

-- The fourth tick in queue 1 is the last of the slice.
last_tick : (timer idle (record fresh { priority = 1; ticks_used = 3 })).0 ≡ true
unfolding timer mlfq_tick mlfq_timeslice_expired
last_tick = refl

moved_down : (timer idle (record fresh { priority = 1; ticks_used = 3 })).1.priority ≡ 2
unfolding timer mlfq_tick mlfq_timeslice_expired
moved_down = refl
