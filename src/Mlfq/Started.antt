-- ===== src/Mlfq/Started.antt =====
-- That userinit and kfork of xv6/kernel/proc.c keep the queues.
use c_shell.Base.{
  ℕ, zero, suc, ◌+◌, ◌≤◌, ◌<◌, ◌≡◌, refl, ap, subst, ◌∙◌, Bool, true, false, Option, some, none,
  inl, inr, Bool-cases, arith,
}
use c_shell.Mlfq.{
  ProcState, unused, used, sleeping, runnable, running, zombie, Kernel, is_runnable, state_runnable,
  enqueue,
}
use c_shell.Mlfq.Fifo.{set_same}
use c_shell.Mlfq.Levels.{pushed}
use c_shell.Mlfq.Processes.{
  Machine, nproc, update, is_unused, freeproc, find_unused, arriving, allocated, allocproc, start,
  first_process, userinit, forked, kfork,
}
use c_shell.Mlfq.Ready.{Ready, change-IsReady, woken-IsReady}

unused_waits : (s : ProcState) → is_unused s ≡ true → state_runnable s ≡ false
unused_waits unused h = refl
unused_waits used h = refl
unused_waits sleeping h = refl
unused_waits runnable h = ground (arith, h)
unused_waits running h = refl
unused_waits zombie h = refl

-- A process of the table that waits in no queue, to be started.
abbrev Idle : Kernel → ℕ → Type 0
Idle k p = (p < nproc) × (is_runnable (k.procs p) ≡ false)

abbrev Found : Kernel → Option ℕ → Type 0
Found k none = Unit
Found k (some p) = Idle k p

find_unused-Found : (left i : ℕ) (k : Kernel) → i + left ≤ nproc → Found k (find_unused left i k)
unfolding find_unused
find_unused-Found zero i k h = tt
find_unused-Found (suc left) i k h = elim (Bool-cases (is_unused (k.procs i).state)) [
  | inl e ↦ rw e (omega (arith, h), unused_waits (k.procs i).state e)
  | inr e ↦ rw e (find_unused-Found left (suc i) k (omega (arith, h)))
]

-- The process that `allocproc` gives.
abbrev Given : Option ℕ × Machine → Type 0
Given (none, m) = Ready m.kernel
Given (some p, m) = Ready m.kernel × Idle m.kernel p × ((m.kernel.procs p).priority ≡ 0)

allocated-Given :
    (memory : Bool) (o : Option ℕ) (m : Machine)
    → Found m.kernel o
    → Ready m.kernel
    → Given (allocated memory o m)
unfolding freeproc
allocated-Given memory none m f h = h
allocated-Given true (some p) m f h =
    let v = arriving m (m.kernel.procs p) in
    let same = set_same p v m.kernel.procs in
    (
      (h.0, change-IsReady m.kernel h.0 p v h.1 f.1 refl (omega arith)),
      (f.0, ap is_runnable same),
      ap (λ w. w.priority) same,
    )
allocated-Given false (some p) m f h =
    let v = freeproc (arriving m (m.kernel.procs p)) in
    (h.0, change-IsReady m.kernel h.0 p v h.1 f.1 refl (omega arith))

allocproc-Given : (memory : Bool) (m : Machine) → Ready m.kernel → Given (allocproc memory m)
unfolding allocproc
allocproc-Given memory m h =
    allocated-Given memory (find_unused nproc 0 m.kernel) m
      (find_unused-Found nproc 0 m.kernel (omega arith)) h

start-Ready :
    (p : ℕ) (k : Kernel) → Ready k → Idle k p → (k.procs p).priority ≡ 0 → Ready (start p k)
unfolding start
start-Ready p k h idle top =
    let v = record (k.procs p) { state = runnable } in
    subst (λ q. Ready (enqueue q p (update p v k))) top
      (pushed v.priority p h.0, woken-IsReady k h.0 p v h.1 idle.1 refl (h.1.bounded p) idle.0)

first_process-Ready :
    (r : Option ℕ × Machine) (m : Machine) → Given r → first_process r ≡ some m → Ready m.kernel
first_process-Ready (none, m') m g e = absurd (cc)
first_process-Ready (some p, m') m g e =
    let there : record m' { kernel = start p m'.kernel; init = some p } ≡ m = cc in
    subst (λ m. Ready m.kernel) there (start-Ready p m'.kernel g.0 g.1 g.2)

pub userinit-Ready :
    (memory : Bool) (m m' : Machine)
    → Ready m.kernel
    → userinit memory m ≡ some m'
    → Ready m'.kernel
unfolding userinit
userinit-Ready memory m m' h e =
    first_process-Ready (allocproc memory m) m' (allocproc-Given memory m h) e

forked-Ready :
    (copied : Bool) (p : ℕ) (r : Option ℕ × Machine) → Given r → Ready (forked copied p r).1.kernel
unfolding freeproc
forked-Ready copied p (none, m) g = g
forked-Ready false p (some n, m) g = (
  g.0.0,
  change-IsReady m.kernel g.0.0 n (freeproc (m.kernel.procs n)) g.0.1 g.1.1 refl (omega arith),
)
forked-Ready true p (some n, m) g =
    let v = record (m.kernel.procs n) { parent = some p } in
    let same = set_same n v m.kernel.procs in
    start-Ready n (update n v m.kernel)
      (g.0.0, change-IsReady m.kernel g.0.0 n v g.0.1 g.1.1 g.1.1 (g.0.1.bounded n))
      (g.1.0, ap is_runnable same ∙ g.1.1) (ap (λ w. w.priority) same ∙ g.2)

pub kfork-Ready :
    (memory copied : Bool) (p : ℕ) (m : Machine)
    → Ready m.kernel
    → Ready (kfork memory copied p m).1.kernel
unfolding kfork
kfork-Ready memory copied p m h =
    forked-Ready copied p (allocproc memory m) (allocproc-Given memory m h)
