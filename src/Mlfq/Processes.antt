-- ===== src/Mlfq/Processes.antt =====
-- How processes of xv6/kernel/proc.c start, sleep and wake, as the kernel is built with MLFQ: allocproc,
-- kfork, sleep and wakeup. Each runs under the locks that it takes, and is one step.
use c_shell.Base.{
  ℕ, zero, suc, ◌+◌, Bool, true, false, not, Option, some, none, ◌==◌, if◌then◌else◌,
}
use c_shell.Mlfq.{
  ProcState, unused, used, sleeping, runnable, zombie, Channel, process, object, Proc, Kernel, set,
  enqueue,
}

-- `nextpid`, `ticks` and `initproc` beside the processes and the queues.
pub record Machine : Type 0 where
  pub kernel : Kernel
  pub next_pid : ℕ
  pub ticks : ℕ
  pub init : Option ℕ

abbrev pub nproc : ℕ
nproc = 64

abbrev pub update : ℕ → Proc → Kernel → Kernel
update p v k = record k { procs = set p v k.procs }

abbrev pub is_unused : ProcState → Bool
is_unused unused = true
is_unused s = false

abbrev pub is_sleeping : ProcState → Bool
is_sleeping sleeping = true
is_sleeping s = false

abbrev pub is_zombie : ProcState → Bool
is_zombie zombie = true
is_zombie s = false

abbrev pub same_channel : Option Channel → Option Channel → Bool
same_channel none none = true
same_channel none (some c) = false
same_channel (some c) none = false
same_channel (some (process p)) (some (process q)) = p == q
same_channel (some (object a)) (some (object b)) = a == b
same_channel (some (process p)) (some (object b)) = false
same_channel (some (object a)) (some (process q)) = false

unfoldable pub freeproc : Proc → Proc
freeproc v = record v {
  state = unused;
  chan = none;
  killed = false;
  xstate = 0;
  pid = 0;
  priority = 0;
  ticks_used = 0;
  next = none;
  rtime = 0;
}

-- The loop of `allocproc` over `left` processes from process `i` on.
unfoldable pub find_unused : ℕ → ℕ → Kernel → Option ℕ
find_unused zero i k = none
find_unused (suc left) i k =
    let rest = find_unused left (suc i) k in if is_unused (k.procs i).state then some i else rest

-- A process that was unused, as `allocproc` sets it up.
abbrev pub arriving : Machine → Proc → Proc
arriving m v = record v {
  pid = m.next_pid;
  state = used;
  ticks_used = 0;
  priority = 0;
  rtime = 0;
  next = none;
  arrival_tick = m.ticks;
  first_run_tick = none;
  completion_tick = none;
  waiting_ticks = 0;
}

-- Whether there is memory for the trap frame and the page table.
abbrev pub allocated : Bool → Option ℕ → Machine → Option ℕ × Machine
allocated memory none m = (none, m)
allocated true (some p) m = (
  some p,
  record m {
    kernel = update p (arriving m (m.kernel.procs p)) m.kernel;
    next_pid = m.next_pid + 1;
  },
)
allocated false (some p) m = (
  none,
  record m {
    kernel = update p (freeproc (arriving m (m.kernel.procs p))) m.kernel;
    next_pid = m.next_pid + 1;
  },
)

unfoldable pub allocproc : Bool → Machine → Option ℕ × Machine
unfolding freeproc find_unused
allocproc memory m = allocated memory (find_unused nproc 0 m.kernel) m

-- `p->state = RUNNABLE; enqueue(0, p)`
unfoldable pub start : ℕ → Kernel → Kernel
unfolding enqueue
start p k = enqueue 0 p (update p (record (k.procs p) { state = runnable }) k)

-- `none` where the code goes on with a null pointer.
abbrev pub first_process : Option ℕ × Machine → Option Machine
first_process (none, m) = none
first_process (some p, m) = some (record m { kernel = start p m.kernel; init = some p })

unfoldable pub userinit : Bool → Machine → Option Machine
unfolding allocproc start
userinit memory m = first_process (allocproc memory m)

-- The rest of `kfork` in process `p`: the process id of the child, or `none` for -1. `copied` is
-- whether there is memory for the copy of the parent's.
abbrev pub forked : Bool → ℕ → Option ℕ × Machine → Option ℕ × Machine
forked copied p (none, m) = (none, m)
forked false p (some n, m) =
    (none, record m { kernel = update n (freeproc (m.kernel.procs n)) m.kernel })
forked true p (some n, m) = (
  some (m.kernel.procs n).pid,
  record m { kernel = start n (update n (record (m.kernel.procs n) { parent = some p }) m.kernel) },
)

unfoldable pub kfork : Bool → Bool → ℕ → Machine → Option ℕ × Machine
unfolding allocproc start
kfork memory copied p m = forked copied p (allocproc memory m)

unfoldable pub sleep_prepare : ℕ → Channel → Kernel → Kernel
sleep_prepare p c k = update p (record (k.procs p) { chan = some c }) k

-- Up to the switch to the scheduler, or to the return if the wake-up was before.
unfoldable pub sleep : ℕ → Kernel → Kernel
sleep p k =
    if not (same_channel (k.procs p).chan none)
    then update p (record (k.procs p) { state = sleeping }) k
    else k

-- A process that sleeps becomes runnable and goes to the queue of its priority.
unfoldable pub rouse : ℕ → Kernel → Kernel
unfolding enqueue
rouse p k =
    if is_sleeping (k.procs p).state
    then enqueue (k.procs p).priority p (update p (record (k.procs p) { state = runnable }) k)
    else k

-- The loop of `wakeup` over `left` processes from process `i` on; a null channel is `none`.
unfoldable pub wake_one : Option Channel → ℕ → Kernel → Kernel
unfolding rouse
wake_one c p k =
    if same_channel (k.procs p).chan c
    then rouse p (update p (record (k.procs p) { chan = none }) k)
    else k

unfoldable pub wakeup_from : ℕ → ℕ → Option Channel → Kernel → Kernel
unfolding wake_one
wakeup_from zero i c k = k
wakeup_from (suc left) i c k = wakeup_from left (suc i) c (wake_one c i k)

unfoldable pub wakeup : Option Channel → Kernel → Kernel
unfolding wakeup_from
wakeup c k = wakeup_from nproc 0 c k
