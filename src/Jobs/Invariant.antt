-- ===== src/Jobs/Invariant.antt =====
-- The invariant of the job table: at most 100 jobs of at most 100 processes, all active, with
-- distinct numbers below the next one, and `remaining` the processes that have not exited.
use c_shell.Base.{
  ℕ, suc, ◌+◌, ◌≤◌, ◌<◌, ◌≡◌, refl, ap, Bool, true, List, [], ◌∷◌, Option, some, none, length,
  if◌then◌else◌, arith, Bool-cases, Option-cases, inl, inr,
}
pub use c_shell.Base.{NotIn, Distinct}
use c_shell.Jobs.{
  ProcState, Proc, BackgroundJob, Table, max_jobs, max_procs, WaitStatus, is_end, reap_proc, reaped,
  reap_job,
}
use c_shell.Jobs.Control.{mark_procs, update_first}

abbrev pub All {ℓ} : {A : Type ℓ} → (A → Type 0) → List A → Type 0
All P [] = Unit
All P (x ∷ xs) = P x × All P xs

abbrev pub keys : (BackgroundJob → ℕ) → List BackgroundJob → List ℕ
keys key [] = []
keys key (j ∷ js) = key j ∷ keys key js

abbrev pub numbers : List BackgroundJob → List ℕ
numbers = keys (λ j. j.job_number)

abbrev pub live_count : List Proc → ℕ
live_count [] = 0
live_count (p ∷ ps) = (if p.exited then 0 else 1) + live_count ps

pub record IsJob (next : ℕ) (j : BackgroundJob) : Type 0 where
  pub active : j.active ≡ true
  pub remaining : j.remaining ≡ live_count j.procs
  pub few_procs : length j.procs ≤ max_procs
  pub positive : 1 ≤ j.job_number
  pub below_next : j.job_number < next

pub record IsTable (t : Table) : Type 0 where
  pub next_positive : 1 ≤ t.next_job_number
  pub few_jobs : length t.jobs ≤ max_jobs
  pub jobs_ok : All (IsJob t.next_job_number) t.jobs
  pub distinct : Distinct (numbers t.jobs)

abbrev pub OnSome {ℓ} : {A : Type ℓ} → (A → Type 0) → Option A → Type 0
OnSome P none = Unit
OnSome P (some a) = P a

-- The processes after a status: as many, and one fewer alive exactly at an end.
abbrev pub Reaped : WaitStatus → List Proc → Option (List Proc) → Type 0
Reaped status ps none = Unit
Reaped status ps (some qs) =
    (length qs ≡ length ps) × (live_count ps ≡ (if is_end status then 1 else 0) + live_count qs)

pub reap_proc-Reaped :
    (pid : ℕ) (status : WaitStatus) (ps : List Proc) → Reaped status ps (reap_proc pid status ps)
unfolding reap_proc
reap_proc-Reaped pid status [] = tt
reap_proc-Reaped pid status (p ∷ ps) = ground (arith, reap_proc-Reaped pid status ps)

module _ (next : ℕ) where
  reaped-IsJob :
      (pid : ℕ) (status : WaitStatus) (j : BackgroundJob) (qs : List Proc)
      → IsJob next j
      → reap_proc pid status j.procs ≡ some qs
      → IsJob next (reaped status j qs)
  reaped-IsJob pid status j qs ok e =
      let r = rw e at (reap_proc-Reaped pid status j.procs) in
      record {
        active = ok.active;
        remaining = ground (arith, ok.remaining);
        few_procs = omega arith;
        positive = ok.positive;
        below_next = ok.below_next;
      }

  pub reap_job-IsJob :
      (pid : ℕ) (status : WaitStatus) (js : List BackgroundJob)
      → All (IsJob next) js
      → All (IsJob next) (reap_job pid status js).0
  unfolding reap_job
  reap_job-IsJob pid status [] h = tt
  reap_job-IsJob pid status (j ∷ js) h = elim (Option-cases (reap_proc pid status j.procs)) [
    | inl e ↦ rw (h.0.active, e) (h.0, reap_job-IsJob pid status js h.1)
    | inr (qs, e) ↦ rw (h.0.active, e) (reaped-IsJob pid status j qs h.0 e, h.1)
  ]

pub reap_job-numbers :
    (pid : ℕ) (status : WaitStatus) (js : List BackgroundJob)
    → numbers (reap_job pid status js).0 ≡ numbers js
unfolding reap_job
reap_job-numbers pid status [] = refl
reap_job-numbers pid status (j ∷ js) = ground (arith, reap_job-numbers pid status js)

pub length-numbers : (js : List BackgroundJob) → length (numbers js) ≡ length js
length-numbers [] = refl
length-numbers (j ∷ js) = ap suc (length-numbers js)

pub mark_procs-counts :
    (s : ProcState) (ps : List Proc)
    → (length (mark_procs s ps) ≡ length ps) × (live_count (mark_procs s ps) ≡ live_count ps)
unfolding mark_procs
mark_procs-counts s [] = (refl, refl)
mark_procs-counts s (p ∷ ps) = ground (arith, mark_procs-counts s ps)

-- A change of one job that keeps its number.
module _ (test : BackgroundJob → Bool) (change : BackgroundJob → BackgroundJob) where
  pub update_first-All :
      (P : BackgroundJob → Type 0) (js : List BackgroundJob)
      → ((j : BackgroundJob) → P j → P (change j))
      → All P js
      → All P (update_first test change js).1
  unfolding update_first
  update_first-All P [] keep h = tt
  update_first-All P (j ∷ js) keep h = elim (Bool-cases (test j)) [
    | inl e ↦ rw e (keep j h.0, h.1)
    | inr e ↦ rw e (h.0, update_first-All P js keep h.1)
  ]

  pub update_first-keys :
      (key : BackgroundJob → ℕ) (js : List BackgroundJob)
      → ((j : BackgroundJob) → key (change j) ≡ key j)
      → keys key (update_first test change js).1 ≡ keys key js
  unfolding update_first
  update_first-keys key [] keep = refl
  update_first-keys key (j ∷ js) keep = ground (arith, keep j, update_first-keys key js keep)
