-- ===== src/Jobs/Lookup.antt =====
-- The job table as a map from job numbers to jobs: what the functions that take a number do to it.
use c_shell.Base.{
  ℕ, ◌≡◌, refl, ap, sym, fun_ext, map, ◌∙◌, not, Bool, true, false, List, [], ◌∷◌, ◌++◌, Option,
  some, none, length, ◌==◌, leb, if◌then◌else◌, Bytes, arith, Bool-cases, inl, inr,
}
use c_shell.Jobs.{
  ProcState, running, stopped, Proc, BackgroundJob, Table, max_jobs, new_job,
  register_background_job, last_of, init_of, refill, remove_first,
}
use c_shell.Jobs.Control.{
  numbered, update_first, mark_procs, mark_procs_of, mark_job_running, mark_job_stopped,
  remove_job_by_number,
}
use c_shell.Jobs.Invariant.{All, NotIn, Distinct, numbers, IsJob, IsTable}
use c_shell.Jobs.Removal.{NotIn-last_of}

abbrev pub is_some {ℓ} : {A : Type ℓ} → Option A → Bool
is_some none = false
is_some (some a) = true

-- The job with this number.
unfoldable pub find_job : ℕ → List BackgroundJob → Option BackgroundJob
find_job n [] = none
find_job n (j ∷ js) = if j.job_number == n then some j else find_job n js

abbrev pub map_job : (BackgroundJob → BackgroundJob) → Option BackgroundJob → Option BackgroundJob
map_job f none = none
map_job f (some j) = some (f j)

find_job-last :
    (m : ℕ) (k : BackgroundJob) (ks : List BackgroundJob)
    → Distinct (numbers (k ∷ ks))
    → find_job m (last_of k ks ∷ init_of k ks) ≡ find_job m (k ∷ ks)
unfolding find_job
find_job-last m k [] d = refl
find_job-last m k (l ∷ ks) d =
    ground
      (arith, find_job-last m l ks d.1, NotIn-last_of (λ i. i.job_number) k.job_number l ks d.0)

find_job-refill :
    (m : ℕ) (js : List BackgroundJob)
    → Distinct (numbers js)
    → find_job m (refill js) ≡ find_job m js
find_job-refill m [] d = refl
find_job-refill m (k ∷ ks) d = find_job-last m k ks d

find_job-NotIn : (n : ℕ) (js : List BackgroundJob) → NotIn n (numbers js) → find_job n js ≡ none
unfolding find_job
find_job-NotIn n [] h = refl
find_job-NotIn n (j ∷ js) h = ground (arith, find_job-NotIn n js h.1, h.0)

-- What the removal of the job with number `n` leaves to be found.
abbrev Removes : ℕ → ℕ → List BackgroundJob → Option (BackgroundJob × List BackgroundJob) → Type 0
Removes n m js none = find_job n js ≡ none
Removes n m js (some r) =
    (find_job n js ≡ some r.0) × (find_job m r.1 ≡ (if n == m then none else find_job m js))

remove_first-Removes :
    (next n m : ℕ) (js : List BackgroundJob)
    → All (IsJob next) js
    → Distinct (numbers js)
    → Removes n m js (remove_first (numbered n) js)
unfolding remove_first find_job
remove_first-Removes next n m [] ok d = refl
remove_first-Removes next n m (j ∷ js) ok d = ground (
  arith,
  remove_first-Removes next n m js ok.1 d.1,
  find_job-refill m js d.1,
  find_job-NotIn j.job_number js d.0,
  ok.0.active,
)

-- `remove_job_by_number` finds the job exactly if there is one with that number; afterwards there is
-- none, and every other number gives the job that it gave before, although the last job has moved.
pub find_job-remove_job_by_number :
    (t : Table) (n m : ℕ)
    → IsTable t
    → ((remove_job_by_number t n).0 ≡ is_some (find_job n t.jobs))
      × (find_job m (remove_job_by_number t n).1.jobs
          ≡ (if n == m then none else find_job m t.jobs))
unfolding remove_job_by_number
find_job-remove_job_by_number t n m ok =
    ground (arith, remove_first-Removes t.next_job_number n m t.jobs ok.jobs_ok ok.distinct)

update_first-find :
    (next n m : ℕ) (s : ProcState) (js : List BackgroundJob)
    → All (IsJob next) js
    → Distinct (numbers js)
    → let r = update_first (numbered n) (mark_procs_of s) js in
      (r.0 ≡ is_some (find_job n js))
      × (find_job m r.1
          ≡ (if n == m then map_job (mark_procs_of s) (find_job m js) else find_job m js))
unfolding update_first find_job
update_first-find next n m s [] ok d = ground arith
update_first-find next n m s (j ∷ js) ok d = ground (
  arith,
  update_first-find next n m s js ok.1 d.1,
  find_job-NotIn j.job_number js d.0,
  ok.0.active,
)

-- `mark_job_running` and `mark_job_stopped` change the processes of the job with that number that have
-- not exited, and no other job; they return whether there is one.
pub find_job-mark :
    (t : Table) (n m : ℕ)
    → IsTable t
    → ((mark_job_running t n).0 ≡ is_some (find_job n t.jobs))
      × (find_job m (mark_job_running t n).1.jobs ≡ (
          if n == m
          then map_job (mark_procs_of running) (find_job m t.jobs)
          else find_job m t.jobs))
      × ((mark_job_stopped t n).0 ≡ is_some (find_job n t.jobs))
      × (find_job m (mark_job_stopped t n).1.jobs ≡ (
          if n == m
          then map_job (mark_procs_of stopped) (find_job m t.jobs)
          else find_job m t.jobs))
unfolding mark_job_running mark_job_stopped
find_job-mark t n m ok =
    let r = update_first-find t.next_job_number n m running t.jobs ok.jobs_ok ok.distinct in
    let s = update_first-find t.next_job_number n m stopped t.jobs ok.jobs_ok ok.distinct in
    (r.0, r.1, s.0, s.1)

find_job-concat :
    (next m : ℕ) (js : List BackgroundJob) (k : BackgroundJob)
    → All (IsJob next) js
    → k.job_number ≡ next
    → find_job m (js ++ k ∷ []) ≡ (if next == m then some k else find_job m js)
unfolding find_job
find_job-concat next m [] k ok e = ground arith
find_job-concat next m (j ∷ js) k ok e =
    ground (arith, find_job-concat next m js k ok.1 e, ok.0.below_next)

-- With fewer than 100 jobs `register_background_job` adds the job under the next number, which no
-- job had, with every process running and not exited, and keeps the others; with 100 jobs it changes
-- nothing.
pub find_job-register_background_job :
    (t : Table) (pgid : ℕ) (procs : List (ℕ × Bytes)) (cmdline : Bytes) (m : ℕ)
    → IsTable t
    → find_job m (register_background_job t pgid procs cmdline).0.jobs ≡ (
        if leb max_jobs (length t.jobs)
        then find_job m t.jobs
        else if t.next_job_number == m
        then some (new_job running t.next_job_number pgid procs cmdline)
        else find_job m t.jobs)
unfolding register_background_job
find_job-register_background_job t pgid procs cmdline m ok =
    elim (Bool-cases (leb max_jobs (length t.jobs))) [
      | inl e ↦ rw e
      | inr e ↦ rw e (
          find_job-concat t.next_job_number m t.jobs
            (new_job running t.next_job_number pgid procs cmdline) ok.jobs_ok refl)
    ]

-- A process that has not exited takes the state; one that has stays as it is.
abbrev pub settled : ProcState → Proc → Proc
settled s p = record {
  pid = p.pid;
  name = p.name;
  state = if p.exited then p.state else s;
  exited = p.exited;
}

-- The job with its processes settled, and else as it was.
abbrev pub settled_job : ProcState → BackgroundJob → BackgroundJob
settled_job s j = record {
  job_number = j.job_number;
  pgid = j.pgid;
  procs = map (settled s) j.procs;
  remaining = j.remaining;
  active = j.active;
  cmdline = j.cmdline;
}

settled_lem :
    (s : ProcState) (p : Proc) (b : Bool)
    → (if not b then record p { state = s } else p) ≡ record p { state = if b then p.state else s }
settled_lem s p true = refl
settled_lem s p false = refl

mark_procs-settled : (s : ProcState) (ps : List Proc) → mark_procs s ps ≡ map (settled s) ps
unfolding mark_procs
mark_procs-settled s [] = refl
mark_procs-settled s (p ∷ ps) =
    ap (λ q. q ∷ mark_procs s ps) (settled_lem s p p.exited)
    ∙ ap (◌∷◌ (settled s p)) (mark_procs-settled s ps)

pub mark_procs_of-settled : (s : ProcState) → mark_procs_of s ≡ settled_job s
mark_procs_of-settled s =
    fun_ext λ j. ap (λ ps. record j { procs = ps }) (mark_procs-settled s j.procs)

-- In a sound table `remove_job_by_number`, `mark_job_running` and `mark_job_stopped` return whether
-- there is a job with that number. A removed job is gone; a marked one has the state of each process that has
-- not exited changed, and nothing else; every other number gives the job that it gave before, although a removal moves the
-- last job.
pub find_job-changed :
    (t : Table) (n m : ℕ)
    → IsTable t
    → ((remove_job_by_number t n).0 ≡ is_some (find_job n t.jobs))
      × (find_job m (remove_job_by_number t n).1.jobs
          ≡ (if n == m then none else find_job m t.jobs))
      × ((mark_job_running t n).0 ≡ is_some (find_job n t.jobs))
      × (find_job m (mark_job_running t n).1.jobs ≡ (
          if n == m then map_job (settled_job running) (find_job m t.jobs) else find_job m t.jobs))
      × ((mark_job_stopped t n).0 ≡ is_some (find_job n t.jobs))
      × (find_job m (mark_job_stopped t n).1.jobs ≡ (
          if n == m then map_job (settled_job stopped) (find_job m t.jobs) else find_job m t.jobs))
find_job-changed t n m ok =
    let removed = find_job-remove_job_by_number t n m ok in
    let marked = find_job-mark t n m ok in
    (
      removed.0,
      removed.1,
      marked.0,
      rw (sym (mark_procs_of-settled running)) marked.1,
      marked.2,
      rw (sym (mark_procs_of-settled stopped)) marked.3,
    )
