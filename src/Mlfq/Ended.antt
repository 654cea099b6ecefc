-- ===== src/Mlfq/Ended.antt =====
-- That kexit and kwait of xv6/kernel/proc.c keep the queues.
use c_shell.Base.{
  ℕ, zero, suc, ◌≡◌, refl, subst, Bool, true, false, ◌&&◌, ◌||◌, Option, some, none, inl, inr,
  Bool-cases, if◌then◌else◌, arith,
}
use c_shell.Mlfq.{
  ProcState, unused, used, sleeping, runnable, running, zombie, Kernel, process, state_runnable,
}
use c_shell.Mlfq.Processes.{Machine, nproc, update, is_zombie, freeproc, wakeup}
use c_shell.Mlfq.Exits.{
  same_process, channel_of, reparent_from, reparent, unless, kexit, scanned, reap, scan_from, kwait,
}
use c_shell.Mlfq.Ready.{Ready, IsRunning, change-IsReady}
use c_shell.Mlfq.Woken.{Keeps, Keeps-then, keep-Keeps, wakeup-Keeps, sleep_prepare-Keeps, runs-out}

zombie_waits : (s : ProcState) → is_zombie s ≡ true → state_runnable s ≡ false
zombie_waits unused h = refl
zombie_waits used h = refl
zombie_waits sleeping h = refl
zombie_waits runnable h = ground (arith, h)
zombie_waits running h = refl
zombie_waits zombie h = refl

adopt-Keeps :
    (b : Bool) (i : ℕ) (init : Option ℕ) (k : Kernel)
    → Keeps k (
        if b
        then wakeup (channel_of init) (update i (record (k.procs i) { parent = init }) k)
        else k)
adopt-Keeps true i init k =
    let k1 = update i (record (k.procs i) { parent = init }) k in
    Keeps-then k k1 (wakeup (channel_of init) k1)
      (keep-Keeps k i (record (k.procs i) { parent = init }) (refl, refl, refl) refl)
      (wakeup-Keeps (channel_of init) k1)
adopt-Keeps false i init k = (λ h. h, λ r run. run)

reparent_from-Keeps :
    (left i p : ℕ) (init : Option ℕ) (k : Kernel) → Keeps k (reparent_from left i p init k)
unfolding reparent_from
reparent_from-Keeps zero i p init k = (λ h. h, λ r run. run)
reparent_from-Keeps (suc left) i p init k =
    let b = same_process (k.procs i).parent (some p) in
    let k1 =
      if b
      then wakeup (channel_of init) (update i (record (k.procs i) { parent = init }) k)
      else k in
    Keeps-then k k1 (reparent_from left (suc i) p init k1) (adopt-Keeps b i init k)
      (reparent_from-Keeps left (suc i) p init k1)

unless_goes : (b : Bool) (m m' : Machine) → unless b m ≡ some m' → m ≡ m'
unless_goes true m m' e = absurd (cc)
unless_goes false m m' e = cc

pub kexit-Ready :
    (status p : ℕ) (m m' : Machine)
    → Ready m.kernel
    → IsRunning m.kernel p
    → kexit status p m ≡ some m'
    → Ready m'.kernel
unfolding kexit reparent
kexit-Ready status p m m' h run e =
    let k = reparent p m.init m.kernel in
    let c = channel_of (k.procs p).parent in
    let k' = wakeup c k in
    let v = record (k'.procs p) {
      xstate = status;
      completion_tick = some m.ticks;
      state = zombie;
    } in
    let kept =
      Keeps-then m.kernel k k' (reparent_from-Keeps nproc 0 p m.init m.kernel) (wakeup-Keeps c k) in
    let h' = kept.0 h in
    let done : Ready (update p v k') = (
      h'.0,
      change-IsReady k' h'.0 p v h'.1 (runs-out k' p (kept.1 p run)) refl (h'.1.bounded p),
    ) in
    subst (λ m. Ready m.kernel)
      (unless_goes (same_process m.init (some p)) (record m { kernel = update p v k' }) m' e) done

scanned-Ready : (kids : Bool) (p : ℕ) (k : Kernel) → Ready k → Ready (scanned kids p k).1
scanned-Ready false p k h = h
scanned-Ready true p k h = elim (Bool-cases (k.procs p).killed) [
  | inl e ↦ rw e h
  | inr e ↦ rw e ((sleep_prepare-Keeps p (process p) k).0 h)
]

reap-Ready :
    (copied : Bool) (c : ℕ) (k : Kernel)
    → is_zombie (k.procs c).state ≡ true
    → Ready k
    → Ready (reap copied c k).1
unfolding freeproc
reap-Ready false c k z h = h
reap-Ready true c k z h = (
  h.0,
  change-IsReady k h.0 c (freeproc (record (k.procs c) { parent = none })) h.1
      (zombie_waits (k.procs c).state z) refl (omega arith),
)

scan_from-Ready :
    (left i : ℕ) (kids copied : Bool) (p : ℕ) (k : Kernel)
    → Ready k
    → Ready (scan_from left i kids copied p k).1
unfolding scan_from
scan_from-Ready zero i kids copied p k h = scanned-Ready kids p k h
scan_from-Ready (suc left) i kids copied p k h =
    let mine = same_process (k.procs i).parent (some p) in
    elim (Bool-cases (mine && is_zombie (k.procs i).state)) [
      | inl e ↦ rw e (reap-Ready copied i k (ground (arith, e)) h)
      | inr e ↦ rw e (scan_from-Ready left (suc i) (kids || mine) copied p k h)
    ]

pub kwait-Ready : (copied : Bool) (p : ℕ) (k : Kernel) → Ready k → Ready (kwait copied p k).1
unfolding kwait
kwait-Ready copied p k h = scan_from-Ready nproc 0 false copied p k h
