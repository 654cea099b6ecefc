-- ===== src/Mlfq/Exits.antt =====
-- How processes of xv6/kernel/proc.c end: kkill, setkilled, kexit and a round of the loop of kwait.
use c_shell.Base.{
  ℕ, zero, suc, Bool, true, false, ◌&&◌, ◌||◌, Option, some, none, ◌==◌, if◌then◌else◌,
}
use c_shell.Mlfq.{zombie, Channel, process, Kernel}
use c_shell.Mlfq.Processes.{
  Machine, nproc, update, is_zombie, freeproc, sleep_prepare, rouse, wakeup,
}

unfoldable pub kill_from : ℕ → ℕ → ℕ → Kernel → Bool × Kernel
unfolding rouse
kill_from zero i pid k = (false, k)
kill_from (suc left) i pid k =
    let rest = kill_from left (suc i) pid k in
    if (k.procs i).pid == pid
    then (true, rouse i (update i (record (k.procs i) { killed = true }) k))
    else rest

-- Whether there is a process with the id.
unfoldable pub kkill : ℕ → Kernel → Bool × Kernel
unfolding kill_from
kkill pid k = kill_from nproc 0 pid k

unfoldable pub setkilled : ℕ → Kernel → Kernel
setkilled p k = update p (record (k.procs p) { killed = true }) k

abbrev pub same_process : Option ℕ → Option ℕ → Bool
same_process none none = true
same_process none (some q) = false
same_process (some p) none = false
same_process (some p) (some q) = p == q

-- The address of a process as a channel.
abbrev pub channel_of : Option ℕ → Option Channel
channel_of none = none
channel_of (some p) = some (process p)

unfoldable pub reparent_from : ℕ → ℕ → ℕ → Option ℕ → Kernel → Kernel
unfolding wakeup
reparent_from zero i p init k = k
reparent_from (suc left) i p init k = reparent_from left (suc i) p init (
    if same_process (k.procs i).parent (some p)
    then wakeup (channel_of init) (update i (record (k.procs i) { parent = init }) k)
    else k)

unfoldable pub reparent : ℕ → Option ℕ → Kernel → Kernel
unfolding reparent_from
reparent p init k = reparent_from nproc 0 p init k

-- `if (p == initproc) panic("init exiting")`
abbrev pub unless : Bool → Machine → Option Machine
unless true m = none
unless false m = some m

-- `kexit` of process `p` up to the switch; `none` for its panic, when the process is `initproc`.
unfoldable pub kexit : ℕ → ℕ → Machine → Option Machine
unfolding reparent wakeup
kexit status p m =
    let k = reparent p m.init m.kernel in
    let k' = wakeup (channel_of (k.procs p).parent) k in
    let v = record (k'.procs p) {
      xstate = status;
      completion_tick = some m.ticks;
      state = zombie;
    } in
    unless (same_process m.init (some p)) (record m { kernel = update p v k' })

-- A round of the loop of `kwait`: a child that has exited and its process id and status, -1, or that
-- the process sleeps.
pub data Waited : Type 0 where
  reaped : ℕ → ℕ → Waited
  failed waits : Waited

-- Behind the scan: whether there are children.
abbrev pub scanned : Bool → ℕ → Kernel → Waited × Kernel
scanned false p k = (failed, k)
scanned true p k =
    if (k.procs p).killed then (failed, k) else (waits, sleep_prepare p (process p) k)

-- `copied` is whether the status can be written where the parent asks for it.
abbrev pub reap : Bool → ℕ → Kernel → Waited × Kernel
reap false c k = (failed, k)
reap true c k = (
  reaped (k.procs c).pid (k.procs c).xstate,
  update c (freeproc (record (k.procs c) { parent = none })) k,
)

unfoldable pub scan_from : ℕ → ℕ → Bool → Bool → ℕ → Kernel → Waited × Kernel
unfolding sleep_prepare freeproc
scan_from zero i kids copied p k = scanned kids p k
scan_from (suc left) i kids copied p k =
    let mine = same_process (k.procs i).parent (some p) in
    let rest = scan_from left (suc i) (kids || mine) copied p k in
    if mine && is_zombie (k.procs i).state then reap copied i k else rest

unfoldable pub kwait : Bool → ℕ → Kernel → Waited × Kernel
unfolding scan_from
kwait copied p k = scan_from nproc 0 false copied p k
