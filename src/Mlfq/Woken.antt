-- ===== src/Mlfq/Woken.antt =====
-- That wakeup, kkill, sleep and their helpers of xv6/kernel/proc.c keep the queues and the processes that
-- run.
use c_shell.Base.{
  ℕ, zero, suc, ◌+◌, ◌≤◌, ◌<◌, ◌≡◌, refl, ap, sym, ◌∙◌, true, false, not, Option, some, none, inl,
  inr, ◌==◌, Bool-cases, arith,
}
use c_shell.Mlfq.{
  ProcState, unused, used, sleeping, runnable, running, zombie, Channel, Proc, Kernel, is_runnable,
  state_runnable,
}
use c_shell.Mlfq.Levels.{pushed, at_levels}
use c_shell.Mlfq.Processes.{
  nproc, update, is_sleeping, same_channel, sleep_prepare, sleep, rouse, wake_one, wakeup_from,
  wakeup,
}
use c_shell.Mlfq.Exits.{kill_from, kkill, setkilled}
use c_shell.Mlfq.Ready.{
  Ready, IsRunning, Same, enqueue_plain, change-IsReady, keep-IsReady, woken-IsReady,
}

sleeping_waits : (s : ProcState) → is_sleeping s ≡ true → state_runnable s ≡ false
sleeping_waits unused h = refl
sleeping_waits used h = refl
sleeping_waits sleeping h = refl
sleeping_waits runnable h = ground (arith, h)
sleeping_waits running h = refl
sleeping_waits zombie h = refl

not_both : (s : ProcState) → is_sleeping s ≡ true → s ≡ running → ⊥
not_both s e r = ground (arith, sym e ∙ ap is_sleeping r)

-- A running process is not in a queue.
pub runs-out : (k : Kernel) (p : ℕ) → IsRunning k p → is_runnable (k.procs p) ≡ false
runs-out k p r = ap state_runnable r.runs

-- The kernel keeps its queues and the running process.
abbrev pub Keeps : Kernel → Kernel → Type 0
Keeps k k' = (Ready k → Ready k') × ((p : ℕ) → IsRunning k p → IsRunning k' p)

pub Keeps-then : (k k' k'' : Kernel) → Keeps k k' → Keeps k' k'' → Keeps k k''
Keeps-then k k' k'' a b = (λ h. b.0 (a.0 h), λ p r. b.1 p (a.1 p r))

-- A change of the fields that neither the queues nor the state depend on.
pub keep-Keeps :
    (k : Kernel) (p : ℕ) (v : Proc)
    → Same v (k.procs p)
    → v.state ≡ (k.procs p).state
    → Keeps k (update p v k)
keep-Keeps k p v same state = (
  λ h. (h.0, keep-IsReady k h.0 p v h.1 same),
  λ r run. record {
    low = run.low;
    runs =
        at_levels (λ r w. (k.procs r).state ≡ running → w.state ≡ running) p v k.procs
          (λ e. state ∙ e) (λ r other e. e) r run.runs;
  },
)

rouse-Keeps : (p : ℕ) (k : Kernel) → p < nproc → Keeps k (rouse p k)
unfolding rouse
rouse-Keeps p k low = elim (Bool-cases (is_sleeping (k.procs p).state)) [
  | inl e ↦
      let v = record (k.procs p) { state = runnable } in
      rw e (
        λ h. (
          pushed v.priority p h.0,
          woken-IsReady k h.0 p v h.1 (sleeping_waits (k.procs p).state e) refl (h.1.bounded p) low,
        ),
        λ r run. record {
          low = run.low;
          runs =
              ap (λ w. w.state) (enqueue_plain v.priority p r (update p v k))
              ∙ at_levels (λ r w. (k.procs r).state ≡ running → w.state ≡ running) p v k.procs
                  (λ r. absurd (not_both (k.procs p).state e r)) (λ r other e. e) r run.runs;
        },
      )
  | inr e ↦ rw e (λ h. h, λ r run. run)
]

wake_one-Keeps : (c : Option Channel) (p : ℕ) (k : Kernel) → p < nproc → Keeps k (wake_one c p k)
unfolding wake_one
wake_one-Keeps c p k low = elim (Bool-cases (same_channel (k.procs p).chan c)) [
  | inl e ↦
      let k1 = update p (record (k.procs p) { chan = none }) k in
      rw e (
        Keeps-then k k1 (rouse p k1)
          (keep-Keeps k p (record (k.procs p) { chan = none }) (refl, refl, refl) refl)
          (rouse-Keeps p k1 low))
  | inr e ↦ rw e (λ h. h, λ r run. run)
]

wakeup_from-Keeps :
    (left i : ℕ) (c : Option Channel) (k : Kernel)
    → i + left ≤ nproc
    → Keeps k (wakeup_from left i c k)
unfolding wakeup_from
wakeup_from-Keeps zero i c k h = (λ h. h, λ r run. run)
wakeup_from-Keeps (suc left) i c k h =
    Keeps-then k (wake_one c i k) (wakeup_from left (suc i) c (wake_one c i k))
      (wake_one-Keeps c i k (omega (arith, h)))
      (wakeup_from-Keeps left (suc i) c (wake_one c i k) (omega (arith, h)))

pub wakeup-Keeps : (c : Option Channel) (k : Kernel) → Keeps k (wakeup c k)
unfolding wakeup
wakeup-Keeps c k = wakeup_from-Keeps nproc 0 c k (omega arith)

kill_from-Keeps :
    (left i pid : ℕ) (k : Kernel) → i + left ≤ nproc → Keeps k (kill_from left i pid k).1
unfolding kill_from
kill_from-Keeps zero i pid k h = (λ h. h, λ r run. run)
kill_from-Keeps (suc left) i pid k h = elim (Bool-cases ((k.procs i).pid == pid)) [
  | inl e ↦
      let k1 = update i (record (k.procs i) { killed = true }) k in
      rw e (
        Keeps-then k k1 (rouse i k1)
          (keep-Keeps k i (record (k.procs i) { killed = true }) (refl, refl, refl) refl)
          (rouse-Keeps i k1 (omega (arith, h))))
  | inr e ↦ rw e (kill_from-Keeps left (suc i) pid k (omega (arith, h)))
]

pub kkill-Keeps : (pid : ℕ) (k : Kernel) → Keeps k (kkill pid k).1
unfolding kkill
kkill-Keeps pid k = kill_from-Keeps nproc 0 pid k (omega arith)

pub setkilled-Keeps : (p : ℕ) (k : Kernel) → Keeps k (setkilled p k)
unfolding setkilled
setkilled-Keeps p k = keep-Keeps k p (record (k.procs p) { killed = true }) (refl, refl, refl) refl

pub sleep_prepare-Keeps : (p : ℕ) (c : Channel) (k : Kernel) → Keeps k (sleep_prepare p c k)
unfolding sleep_prepare
sleep_prepare-Keeps p c k =
    keep-Keeps k p (record (k.procs p) { chan = some c }) (refl, refl, refl) refl

pub sleep-Ready : (p : ℕ) (k : Kernel) → IsRunning k p → Ready k → Ready (sleep p k)
unfolding sleep
sleep-Ready p k run h = elim (Bool-cases (not (same_channel (k.procs p).chan none))) [
  | inl e ↦ rw e (
    h.0,
    change-IsReady k h.0 p (record (k.procs p) { state = sleeping }) h.1 (runs-out k p run) refl
        (h.1.bounded p),
  )
  | inr e ↦ rw e h
]
