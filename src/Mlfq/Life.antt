-- ===== src/Mlfq/Life.antt =====
-- The kernel of xv6/kernel/proc.c over time: its calls in any order, from the empty table on.
use c_shell.Base.{ℕ, ◌≡◌, refl, sym, subst, ◌∙◌, Bool, false, [], Option, none, some, arith}
use c_shell.Mlfq.{unused, Channel, Proc, Kernel}
use c_shell.Mlfq.Processes.{Machine, userinit, kfork, sleep_prepare, sleep, wakeup}
use c_shell.Mlfq.Exits.{kkill, setkilled, kexit, kwait}
use c_shell.Mlfq.Clock.{scheduler, usertrap, clockintr}
use c_shell.Mlfq.Ready.{mem, Ready, IsRunning}
use c_shell.Mlfq.Started.{userinit-Ready, kfork-Ready}
use c_shell.Mlfq.Woken.{
  wakeup-Keeps, kkill-Keeps, setkilled-Keeps, sleep_prepare-Keeps, sleep-Ready,
}
use c_shell.Mlfq.Ended.{kexit-Ready, kwait-Ready}
use c_shell.Mlfq.Switched.{Switched, scheduler-Switched, usertrap-Ready}
use c_shell.Mlfq.Boosted.{clockintr-Ready}

-- A process of the table as it is before the first.
abbrev pub fresh : Proc
fresh = record {
  state = unused;
  chan = none;
  killed = false;
  xstate = 0;
  pid = 0;
  parent = none;
  priority = 0;
  ticks_used = 0;
  rtime = 0;
  next = none;
  arrival_tick = 0;
  first_run_tick = none;
  completion_tick = none;
  waiting_ticks = 0;
}

abbrev pub booted : Machine
booted = record {
  kernel = record { procs = λ p. fresh; queues = λ q. record { head = none; tail = none } };
  next_pid = 1;
  ticks = 0;
  init = none;
}

abbrev pub on : Machine → Kernel → Machine
on m k = record m { kernel = k }

-- The calls with any arguments and any answers of the memory. Those that a process makes for itself are
-- made by one that runs; several may run at once.
pub data Step (m : Machine) : Machine → Type 0 where
  first : (memory : Bool) (m' : Machine) → userinit memory m ≡ some m' → Step m m'
  fork : (memory copied : Bool) (p : ℕ) → IsRunning m.kernel p → Step m (kfork memory copied p m).1
  exit :
      (status p : ℕ) (m' : Machine) → IsRunning m.kernel p → kexit status p m ≡ some m' → Step m m'
  wait : (copied : Bool) (p : ℕ) → IsRunning m.kernel p → Step m (on m (kwait copied p m.kernel).1)
  prepare :
      (p : ℕ) (c : Channel) → IsRunning m.kernel p → Step m (on m (sleep_prepare p c m.kernel))
  doze : (p : ℕ) → IsRunning m.kernel p → Step m (on m (sleep p m.kernel))
  wake : (c : Option Channel) → Step m (on m (wakeup c m.kernel))
  kill : (pid : ℕ) → Step m (on m (kkill pid m.kernel).1)
  mark : (p : ℕ) → Step m (on m (setkilled p m.kernel))
  dispatch : Step m (on m (scheduler m.ticks m.kernel).1)
  trap : (p : ℕ) → IsRunning m.kernel p → Step m (on m (usertrap p m.kernel))
  clock : (m' : Machine) → clockintr m ≡ some m' → Step m m'

pub data Reach : Machine → Type 0 where
  start : Reach booted
  step : {m m' : Machine} → Reach m → Step m m' → Reach m'

booted-Ready : Ready booted.kernel
unfolding mem
booted-Ready = (
  λ q. [],
  record {
    linked = record {
      holds = λ q. record { chain = refl; ends = refl; distinct = tt };
      apart = λ q r ne. tt;
    };
    stands = λ p q. refl;
    bounded = λ p. omega arith;
    inside = λ p far. refl;
  },
)

same_machine : (m m' : Machine) → ◌≡◌ {A = Option Machine} (some m) (some m') → m ≡ m'
same_machine m m' e = cc

clock-Ready : (m m' : Machine) → Ready m.kernel → clockintr m ≡ some m' → Ready m'.kernel
clock-Ready m m' h e =
    let (m2, e2, h2) = clockintr-Ready m h in
    let same : m2 ≡ m' = same_machine m2 m' (sym e2 ∙ e) in subst (λ m. Ready m.kernel) same h2

Step-Ready : {m m' : Machine} → Step m m' → Ready m.kernel → Ready m'.kernel
Step-Ready {m} (first memory m' e) h = userinit-Ready memory m m' h e
Step-Ready {m} (fork memory copied p run) h = kfork-Ready memory copied p m h
Step-Ready {m} (exit status p m' run e) h = kexit-Ready status p m m' h run e
Step-Ready {m} (wait copied p run) h = kwait-Ready copied p m.kernel h
Step-Ready {m} (prepare p c run) h = (sleep_prepare-Keeps p c m.kernel).0 h
Step-Ready {m} (doze p run) h = sleep-Ready p m.kernel run h
Step-Ready {m} (wake c) h = (wakeup-Keeps c m.kernel).0 h
Step-Ready {m} (kill pid) h = (kkill-Keeps pid m.kernel).0 h
Step-Ready {m} (mark p) h = (setkilled-Keeps p m.kernel).0 h
Step-Ready {m} dispatch h = (scheduler-Switched m.ticks m.kernel h).0
Step-Ready {m} (trap p run) h = usertrap-Ready p m.kernel run h
Step-Ready {m} (clock m' e) h = clock-Ready m m' h e

-- On one processor, whatever calls are made from the empty table on, each of them running whole: the
-- four queues are linked lists that share no process, and each holds the runnable processes of its
-- priority, each once, and no others; every priority is at most 3.
pub Reach-Ready : {m : Machine} → Reach m → Ready m.kernel
Reach-Ready start = booted-Ready
Reach-Ready (step r s) = Step-Ready s (Reach-Ready r)

-- On one processor, whatever calls were made, each of them running whole, and with no interrupt between
-- the scheduler's choice and its switch: the scheduler finds none exactly if no process is runnable;
-- else it switches to a runnable process such that none of lower priority number is, which runs
-- afterwards.
pub Reach-Switched : {m : Machine} → Reach m → Switched m.kernel (scheduler m.ticks m.kernel)
Reach-Switched {m} r = scheduler-Switched m.ticks m.kernel (Reach-Ready r)

-- On one processor, whatever calls were made, each of them running whole: the clock interrupt ends,
-- with its boost when one is due, since no queue has more processes than the table; and what it leaves
-- can be reached.
pub Reach-clock : {m : Machine} → Reach m → (m' : Machine) × (clockintr m ≡ some m') × Reach m'
Reach-clock {m} r =
    let (m', e, h) = clockintr-Ready m (Reach-Ready r) in (m', e, step r (clock m' e))
