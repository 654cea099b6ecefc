-- ===== src/Mlfq/Awake.antt =====
-- That no wake-up of xv6/kernel/proc.c is lost between sleep_prepare and sleep.
use c_shell.Base.{
  ℕ, zero, suc, ◌+◌, ◌≤◌, ◌<◌, ◌≡◌, ◌≢◌, refl, ap, sym, subst, ◌∙◌, true, false, Option, some, none,
  inl, inr, ◌==◌, ==_iff, Bool-cases, arith,
}
use c_shell.Mlfq.{sleeping, runnable, Channel, process, object, Proc, Kernel, is_runnable}
use c_shell.Mlfq.Fifo.{set_same}
use c_shell.Mlfq.Levels.{at_levels}
use c_shell.Mlfq.Processes.{
  nproc, update, is_sleeping, same_channel, sleep, rouse, wake_one, wakeup_from, wakeup,
}
use c_shell.Mlfq.Ready.{IsRunning, plain, enqueue_plain}
use c_shell.Mlfq.Woken.{wakeup-Keeps}

same_channel_self : (c : Channel) → same_channel (some c) (some c) ≡ true
same_channel_self (process p) = ground arith
same_channel_self (object a) = ground arith

-- What a wake-up of one process keeps of a process.
rouse-keeps :
    (P : ℕ → Proc → Type 0) (q : ℕ) (k : Kernel)
    → ((r : ℕ) → P r (k.procs r))
    → ((r : ℕ) (v w : Proc) → plain v ≡ plain w → P r w → P r v)
    → (is_sleeping (k.procs q).state ≡ true → P q (record (k.procs q) { state = runnable }))
    → (r : ℕ) → P r ((rouse q k).procs r)
unfolding rouse
rouse-keeps P q k all same woken = elim (Bool-cases (is_sleeping (k.procs q).state)) [
  | inl e ↦
      let v = record (k.procs q) { state = runnable } in
      rw e (λ r.
        same r _ _ (enqueue_plain v.priority q r (update q v k))
          (at_levels P q v k.procs (woken e) (λ r other. all r) r))
  | inr e ↦ rw e all
]

rouse_chan : (q r : ℕ) (k : Kernel) → ((rouse q k).procs r).chan ≡ (k.procs r).chan
rouse_chan q r k =
    rouse-keeps (λ r w. w.chan ≡ (k.procs r).chan) q k (λ r. refl)
      (λ r v w e h. ap (λ u. u.chan) e ∙ h) (λ s. refl) r

rouse_runnable :
    (q r : ℕ) (k : Kernel)
    → is_runnable (k.procs r) ≡ true
    → is_runnable ((rouse q k).procs r) ≡ true
rouse_runnable q r k =
    rouse-keeps (λ r w. is_runnable (k.procs r) ≡ true → is_runnable w ≡ true) q k (λ r h. h)
      (λ r v w e h run. ap is_runnable e ∙ h run) (λ s run. refl) r

rouse_wakes :
    (p : ℕ) (k : Kernel) → (k.procs p).state ≡ sleeping → is_runnable ((rouse p k).procs p) ≡ true
unfolding rouse
rouse_wakes p k s =
    let v = record (k.procs p) { state = runnable } in
    rw (ap is_sleeping s) (
      ap is_runnable (enqueue_plain v.priority p p (update p v k))
      ∙ ap is_runnable (set_same p v k.procs))

wake_one-gone :
    (c : Option Channel) (q p : ℕ) (k : Kernel)
    → (k.procs p).chan ≡ none
    → ((wake_one c q k).procs p).chan ≡ none
unfolding wake_one
wake_one-gone c q p k h = elim (Bool-cases (same_channel (k.procs q).chan c)) [
  | inl e ↦
      let v = record (k.procs q) { chan = none } in
      rw e (
        rouse_chan q p (update q v k)
        ∙ at_levels (λ r w. (k.procs r).chan ≡ none → w.chan ≡ none) q v k.procs (λ h. refl)
            (λ r other h. h) p h)
  | inr e ↦ rw e h
]

wake_one_runnable :
    (c : Option Channel) (q p : ℕ) (k : Kernel)
    → is_runnable (k.procs p) ≡ true
    → is_runnable ((wake_one c q k).procs p) ≡ true
unfolding wake_one
wake_one_runnable c q p k h = elim (Bool-cases (same_channel (k.procs q).chan c)) [
  | inl e ↦
      let v = record (k.procs q) { chan = none } in
      rw e (
        rouse_runnable q p (update q v k) (
          at_levels (λ r w. is_runnable (k.procs r) ≡ true → is_runnable w ≡ true) q v k.procs
            (λ h. h) (λ r other h. h) p h))
  | inr e ↦ rw e h
]

wake_one_other :
    (c : Option Channel) (q p : ℕ) (k : Kernel)
    → q ≢ p
    → plain ((wake_one c q k).procs p) ≡ plain (k.procs p)
unfolding wake_one
wake_one_other c q p k other = elim (Bool-cases (same_channel (k.procs q).chan c)) [
  | inl e ↦
      let v = record (k.procs q) { chan = none } in
      let P : ℕ → Proc → Type 0 = λ r w. q ≢ r → plain w ≡ plain (k.procs r) in
      rw e (
        rouse-keeps P q (update q v k)
          (at_levels P q v k.procs (λ ne. absurd (ne refl)) (λ r ne ne'. refl))
          (λ r v w e h ne. e ∙ h ne) (λ s ne. absurd (ne refl)) p other)
  | inr e ↦ rw e refl
]

-- The round for the process itself.
wake_one_own :
    (c : Channel) (p : ℕ) (k : Kernel)
    → (k.procs p).chan ≡ some c
    → (((wake_one (some c) p k).procs p).chan ≡ none)
      × ((k.procs p).state ≡ sleeping → is_runnable ((wake_one (some c) p k).procs p) ≡ true)
unfolding wake_one
wake_one_own c p k h =
    let v = record (k.procs p) { chan = none } in
    let matches : same_channel (k.procs p).chan (some c) ≡ true =
      ap (λ o. same_channel o (some c)) h ∙ same_channel_self c in
    rw matches (
      rouse_chan p p (update p v k) ∙ ap (λ w. w.chan) (set_same p v k.procs),
      λ s. rouse_wakes p (update p v k) (ap (λ w. w.state) (set_same p v k.procs) ∙ s),
    )

wakeup_from-gone :
    (left i p : ℕ) (c : Option Channel) (k : Kernel)
    → (k.procs p).chan ≡ none
    → ((wakeup_from left i c k).procs p).chan ≡ none
unfolding wakeup_from
wakeup_from-gone zero i p c k h = h
wakeup_from-gone (suc left) i p c k h =
    wakeup_from-gone left (suc i) p c (wake_one c i k) (wake_one-gone c i p k h)

wakeup_from_runnable :
    (left i p : ℕ) (c : Option Channel) (k : Kernel)
    → is_runnable (k.procs p) ≡ true
    → is_runnable ((wakeup_from left i c k).procs p) ≡ true
unfolding wakeup_from
wakeup_from_runnable zero i p c k h = h
wakeup_from_runnable (suc left) i p c k h =
    wakeup_from_runnable left (suc i) p c (wake_one c i k) (wake_one_runnable c i p k h)

abbrev Reached : Kernel → Kernel → ℕ → Type 0
Reached k k' p =
    ((k'.procs p).chan ≡ none) × ((k.procs p).state ≡ sleeping → is_runnable (k'.procs p) ≡ true)

not_equal : (i p : ℕ) → (i == p) ≡ false → i ≢ p
not_equal i p e = λ s. ground (arith, e, s)

wakeup_from-Reached :
    (left i p : ℕ) (c : Channel) (k : Kernel)
    → i ≤ p
    → p < i + left
    → (k.procs p).chan ≡ some c
    → Reached k (wakeup_from left i (some c) k) p
unfolding wakeup_from
wakeup_from-Reached zero i p c k low high h = absurd (omega (arith, low, high))
wakeup_from-Reached (suc left) i p c k low high h = elim (Bool-cases (i == p)) [
  | inl e ↦
      let k1 = wake_one (some c) i k in
      let own =
        wake_one_own c i k (subst (λ q. (k.procs q).chan ≡ some c) (sym ((==_iff i p).0 e)) h) in
      subst (Reached k (wakeup_from left (suc i) (some c) k1)) ((==_iff i p).0 e) (
        wakeup_from-gone left (suc i) i (some c) k1 own.0,
        λ s. wakeup_from_runnable left (suc i) i (some c) k1 (own.1 s),
      )
  | inr e ↦
      let k1 = wake_one (some c) i k in
      let same = wake_one_other (some c) i p k (not_equal i p e) in
      let later =
        wakeup_from-Reached left (suc i) p c k1 (ground (arith, low, e)) (omega (arith, high))
          (ap (λ w. w.chan) same ∙ h) in
      (later.0, λ s. later.1 (ap (λ w. w.state) same ∙ s))
]

-- A process that registered for a channel, and has not been woken since: if it sleeps already, a wake-up
-- of the channel makes it runnable; if it still runs, its `sleep` behind the wake-up does nothing and it
-- runs on.
pub wakeup-not_lost :
    (p : ℕ) (c : Channel) (k : Kernel)
    → p < nproc
    → (k.procs p).chan ≡ some c
    → let k' = wakeup (some c) k in
      ((k.procs p).state ≡ sleeping → is_runnable (k'.procs p) ≡ true)
      × (IsRunning k p → (sleep p k' ≡ k') × IsRunning k' p)
unfolding wakeup sleep
wakeup-not_lost p c k low h =
    let reached = wakeup_from-Reached nproc 0 p c k (omega arith) low h in
    (reached.1, λ run. (rw reached.0 refl, (wakeup-Keeps (some c) k).1 p run))
