-- ===== src/Jobs/Keeps.antt =====
-- Each call of background.c that changes the job table keeps its invariant.
use c_shell.Base.{
  ℕ, suc, ◌+◌, ◌<◌, ◌≡◌, ◌≢◌, refl, Bool, List, [], ◌∷◌, ◌++◌, map, length, take, length-append,
  length-take-le, leb, Bytes, arith, Bool-cases, Option-cases, inl, inr, sym, ap,
}
use c_shell.Jobs.{
  ProcState, running, stopped, BackgroundJob, Notification, Table, max_jobs, max_procs, WaitStatus,
  reap_job, reap, sigchld_handler, new_proc, new_job, add_job, register_background_job,
  register_stopped_job, remove_first, led_by, drain_one,
}
use c_shell.Jobs.Control.{
  numbered, update_first, mark_procs_of, remove_job_by_number, set_job_cmdline,
}
use c_shell.Jobs.Invariant.{
  All, NotIn, Distinct, numbers, live_count, IsJob, IsTable, reap_job-IsJob, reap_job-numbers,
  length-numbers, mark_procs-counts, update_first-All, update_first-keys,
}
use c_shell.Jobs.Removal.{remove_first-IsTable}

-- The jobs change in place, under the same numbers.
same_numbers-IsTable :
    (t : Table) (js : List BackgroundJob) (pipe : List Notification)
    → numbers js ≡ numbers t.jobs
    → All (IsJob t.next_job_number) js
    → IsTable t
    → IsTable (record t { jobs = js; pipe = pipe })
same_numbers-IsTable t js pipe e all ok = record {
  next_positive = ok.next_positive;
  few_jobs =
      let few = ok.few_jobs in omega (arith, ap length e, length-numbers js, length-numbers t.jobs);
  jobs_ok = all;
  distinct = rw e ok.distinct;
}

reap-IsTable : (t : Table) (event : ℕ × WaitStatus) → IsTable t → IsTable (reap t event)
unfolding reap
reap-IsTable t (pid, status) ok =
    same_numbers-IsTable t (reap_job pid status t.jobs).0 _ (reap_job-numbers pid status t.jobs)
      (reap_job-IsJob t.next_job_number pid status t.jobs ok.jobs_ok) ok

pub sigchld_handler-IsTable :
    (t : Table) (events : List (ℕ × WaitStatus)) → IsTable t → IsTable (sigchld_handler t events)
unfolding sigchld_handler
sigchld_handler-IsTable t [] ok = ok
sigchld_handler-IsTable t (e ∷ events) ok =
    sigchld_handler-IsTable (reap t e) events (reap-IsTable t e ok)

IsJob-later : (n : ℕ) (js : List BackgroundJob) → All (IsJob n) js → All (IsJob (n + 1)) js
IsJob-later n [] h = tt
IsJob-later n (j ∷ js) h = (
  record {
    active = h.0.active;
    remaining = h.0.remaining;
    few_procs = h.0.few_procs;
    positive = h.0.positive;
    below_next = let b = h.0.below_next in omega arith;
  },
  IsJob-later n js h.1,
)

All-concat :
    (P : BackgroundJob → Type 0) (js : List BackgroundJob) (k : BackgroundJob)
    → All P js
    → P k
    → All P (js ++ k ∷ [])
All-concat P [] k h p = (p, tt)
All-concat P (j ∷ js) k h p = (h.0, All-concat P js k h.1 p)

NotIn-concat :
    (n : ℕ) (js : List BackgroundJob) (k : BackgroundJob)
    → NotIn n (numbers js)
    → n ≢ k.job_number
    → NotIn n (numbers (js ++ k ∷ []))
NotIn-concat n [] k h p = (p, tt)
NotIn-concat n (j ∷ js) k h p = (h.0, NotIn-concat n js k h.1 p)

Distinct-concat :
    (js : List BackgroundJob) (k : BackgroundJob)
    → All (IsJob k.job_number) js
    → Distinct (numbers js)
    → Distinct (numbers (js ++ k ∷ []))
Distinct-concat [] k below d = (tt, tt)
Distinct-concat (j ∷ js) k below d =
    let b = below.0.below_next in
    (NotIn-concat j.job_number js k d.0 (omega arith), Distinct-concat js k below.1 d.1)

live_count-new :
    (s : ProcState) (procs : List (ℕ × Bytes)) → live_count (map (new_proc s) procs) ≡ length procs
live_count-new s [] = refl
live_count-new s (p ∷ procs) = omega (arith, live_count-new s procs)

length-new :
    (s : ProcState) (procs : List (ℕ × Bytes)) → length (map (new_proc s) procs) ≡ length procs
length-new s [] = refl
length-new s (p ∷ procs) = ap suc (length-new s procs)

add_job-IsTable :
    (s : ProcState) (t : Table) (pgid : ℕ) (procs : List (ℕ × Bytes)) (cmdline : Bytes)
    → length t.jobs < max_jobs
    → IsTable t
    → IsTable (add_job s t pgid procs cmdline)
add_job-IsTable s t pgid procs cmdline room ok =
    let k = new_job s t.next_job_number pgid procs cmdline in
    record {
      next_positive = omega arith;
      few_jobs = omega (arith, length-append t.jobs (k ∷ []));
      jobs_ok =
          All-concat (IsJob (t.next_job_number + 1)) t.jobs k
            (IsJob-later t.next_job_number t.jobs ok.jobs_ok)
            (record {
              active = refl;
              remaining = sym (live_count-new s (take max_procs procs));
              few_procs =
                  omega
                    (arith, length-new s (take max_procs procs), length-take-le max_procs procs);
              positive = ok.next_positive;
              below_next = omega arith;
            });
      distinct = Distinct-concat t.jobs k ok.jobs_ok ok.distinct;
    }

pub register_background_job-IsTable :
    (t : Table) (pgid : ℕ) (procs : List (ℕ × Bytes)) (cmdline : Bytes)
    → IsTable t
    → IsTable (register_background_job t pgid procs cmdline).0
unfolding register_background_job
register_background_job-IsTable t pgid procs cmdline ok =
    elim (Bool-cases (leb max_jobs (length t.jobs))) [
      | inl e ↦ rw e ok
      | inr e ↦ rw e (add_job-IsTable running t pgid procs cmdline (ground arith) ok)
    ]

pub register_stopped_job-IsTable :
    (t : Table) (pgid : ℕ) (procs : List (ℕ × Bytes)) (cmdline : Bytes)
    → IsTable t
    → IsTable (register_stopped_job t pgid procs cmdline).0
unfolding register_stopped_job
register_stopped_job-IsTable t pgid procs cmdline ok =
    elim (Bool-cases (leb max_jobs (length t.jobs))) [
      | inl e ↦ rw e ok
      | inr e ↦ rw e (add_job-IsTable stopped t pgid procs cmdline (ground arith) ok)
    ]

pub drain_one-IsTable :
    (t : Table) (n : Notification) (pipe : List Notification)
    → IsTable t
    → IsTable (record t { jobs = (drain_one t.jobs n).0; pipe = pipe })
unfolding drain_one
drain_one-IsTable t n pipe ok = elim (Option-cases (remove_first (led_by n.pid) t.jobs)) [
  | inl e ↦ rw (e, drain_one) (same_numbers-IsTable t t.jobs pipe refl ok.jobs_ok ok)
  | inr (r, e) ↦ rw (e, drain_one) (remove_first-IsTable t (led_by n.pid) r pipe e ok)
]

pub mark-IsTable :
    (t : Table) (s : ProcState) (test : BackgroundJob → Bool)
    → IsTable t
    → IsTable (record t { jobs = (update_first test (mark_procs_of s) t.jobs).1 })
mark-IsTable t s test ok =
    same_numbers-IsTable t _ t.pipe
      (update_first-keys test (mark_procs_of s) (λ j. j.job_number) t.jobs (λ j. refl))
      (update_first-All test (mark_procs_of s) (IsJob t.next_job_number) t.jobs
        (λ j h. record {
          active = h.active;
          remaining = omega (arith, h.remaining, (mark_procs-counts s j.procs).1);
          few_procs = let few = h.few_procs in omega (arith, (mark_procs-counts s j.procs).0);
          positive = h.positive;
          below_next = h.below_next;
        })
        ok.jobs_ok)
      ok

pub remove_job_by_number-IsTable :
    (t : Table) (n : ℕ) → IsTable t → IsTable (remove_job_by_number t n).1
unfolding remove_job_by_number
remove_job_by_number-IsTable t n ok = elim (Option-cases (remove_first (numbered n) t.jobs)) [
  | inl e ↦ rw (e, remove_job_by_number) ok
  | inr (r, e) ↦ rw (e, remove_job_by_number) (remove_first-IsTable t (numbered n) r t.pipe e ok)
]

pub set_job_cmdline-IsTable :
    (t : Table) (pgid : ℕ) (cmdline : Bytes) → IsTable t → IsTable (set_job_cmdline t pgid cmdline)
unfolding set_job_cmdline
set_job_cmdline-IsTable t pgid cmdline ok =
    same_numbers-IsTable t _ t.pipe (update_first-keys _ _ (λ j. j.job_number) t.jobs (λ j. refl))
      (update_first-All _ _ (IsJob t.next_job_number) t.jobs
        (λ j h. record {
          active = h.active;
          remaining = h.remaining;
          few_procs = h.few_procs;
          positive = h.positive;
          below_next = h.below_next;
        })
        ok.jobs_ok)
      ok
