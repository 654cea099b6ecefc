-- ===== src/Tests/Life.antt =====
-- The first process of the kernel, its child, and the clock.
use c_shell.Base.{◌≡◌, refl, true, some, arith}
use c_shell.Mlfq.{sleeping, object, Kernel, is_runnable, enqueue, deque_highest_priority_p}
use c_shell.Mlfq.Processes.{
  Machine, allocproc, find_unused, start, userinit, kfork, sleep_prepare, sleep, wakeup,
}
use c_shell.Mlfq.Clock.{scheduler, usertrap, clockintr}
use c_shell.Mlfq.Ready.{Ready, IsRunning}
use c_shell.Mlfq.Switched.{Switched}
use c_shell.Mlfq.Awake.{wakeup-not_lost}
use c_shell.Mlfq.Life.{
  booted, on, first, dispatch, fork, trap, Reach, step, Reach-Ready, Reach-Switched, Reach-clock,
}

-- The first process stands in queue 0; it runs; it has a child; it is interrupted.
abbrev one : Machine
one = record (allocproc true booted).1 {
  kernel = start 0 (allocproc true booted).1.kernel;
  init = some 0;
}

abbrev switched : Machine
switched = on one (scheduler one.ticks one.kernel).1

abbrev parent : Machine
parent = (kfork true true 0 switched).1

abbrev interrupted : Machine
interrupted = on parent (usertrap 0 parent.kernel)

one_starts : userinit true booted ≡ some one
unfolding userinit allocproc find_unused
one_starts = refl

first_runs : IsRunning switched.kernel 0
unfolding scheduler deque_highest_priority_p start enqueue allocproc find_unused
first_runs = record { low = omega arith; runs = refl }

parent_runs : IsRunning parent.kernel 0
unfolding kfork scheduler deque_highest_priority_p start enqueue allocproc find_unused
parent_runs = record { low = omega arith; runs = refl }

reached : Reach interrupted
reached =
    step
      (step (step (step Reach.start (first true one one_starts)) dispatch)
        (fork true true 0 first_runs))
      (trap 0 parent_runs)

-- The child comes first, since the parent has used up its slice.
child_next : (scheduler interrupted.ticks interrupted.kernel).0 ≡ some 1
unfolding kfork scheduler deque_highest_priority_p start enqueue allocproc find_unused usertrap
child_next = refl

Reach-Ready_example : Ready interrupted.kernel
Reach-Ready_example = Reach-Ready reached

Reach-Switched_example :
    Switched interrupted.kernel (scheduler interrupted.ticks interrupted.kernel)
Reach-Switched_example = Reach-Switched reached

Reach-clock_example : (m' : Machine) × (clockintr interrupted ≡ some m') × Reach m'
Reach-clock_example = Reach-clock reached

-- The parent registers for a channel, and is woken before it sleeps.
abbrev registered : Kernel
registered = sleep_prepare 0 (object 5) parent.kernel

registered_chan : (registered.procs 0).chan ≡ some (object 5)
unfolding sleep_prepare
registered_chan = refl

wakeup-not_lost_example :
    let k' = wakeup (some (object 5)) registered in
    ((registered.procs 0).state ≡ sleeping → is_runnable (k'.procs 0) ≡ true)
    × (IsRunning registered 0 → (sleep 0 k' ≡ k') × IsRunning k' 0)
wakeup-not_lost_example = wakeup-not_lost 0 (object 5) registered (omega arith) registered_chan
