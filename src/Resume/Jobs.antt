-- ===== src/Resume/Jobs.antt =====
-- What `resume` of c-shell/src/resume.c does with a job that stands in the table.
use c_shell.Base.{
  ℕ, ◌^◌, ◌<◌, ◌≡◌, refl, ap, subst, sym, ◌∙◌, true, false, List, [], ◌∷◌, Option, some, none, ◌==◌,
  if◌then◌else◌, Bytes, arith, Bool-cases, inl, inr,
}
use c_shell.Lexer.{Token}
use c_shell.Jobs.{running, stopped, BackgroundJob, Table, sigchld_handler}
use c_shell.Jobs.Control.{ActivityJob, activity_job, get_activities, mark_job_running}
use c_shell.Jobs.Invariant.{IsTable}
use c_shell.Jobs.Steps.{resume, Step-IsTable}
use c_shell.Jobs.Lookup.{
  find_job, map_job, find_job-remove_job_by_number, find_job-changed, settled_job,
}
use c_shell.Terminal.{WaitReport, Alarm, wait_foreground_group_timeout}
use c_shell.Numbers.{to_int}
use c_shell.Ping.{find_activity}
use c_shell.Ping.Targets.{find_activity-activities, to_int-small, activity_of}
use c_shell.Resume.{
  Request, parse_resume, Resumed, running_line, sigcont, sigterm, no_procs, pids, shown, seconds,
  after_wait, continue_job, exec_resume,
}

abbrev Numbered : ℕ → Option BackgroundJob → Type 0
Numbered n none = Unit
Numbered n (some j) = j.job_number ≡ n

find_job-Numbered : (n : ℕ) (js : List BackgroundJob) → Numbered n (find_job n js)
unfolding find_job
find_job-Numbered n [] = tt
find_job-Numbered n (k ∷ ks) = ground (arith, find_job-Numbered n ks)

find_job-number :
    (n : ℕ) (js : List BackgroundJob) (j : BackgroundJob)
    → find_job n js ≡ some j
    → j.job_number ≡ n
find_job-number n js j h = subst (Numbered n) h (find_job-Numbered n js)

-- What the job with number `n` is afterwards, at the result of the wait.
abbrev pub left_of : ℕ → BackgroundJob → Option BackgroundJob
left_of result j = if result == 1 then some (settled_job stopped (settled_job running j)) else none

after_wait-find :
    (t : Table) (job : ActivityJob) (cmdline : Bytes) (result m : ℕ)
    → IsTable t
    → let r = after_wait t job cmdline result in
      (r.code ≡ 0)
      × (find_job m r.table.jobs ≡ (
          if job.job_number == m
          then (if result == 1 then map_job (settled_job stopped) (find_job m t.jobs) else none)
          else find_job m t.jobs))
      × (r.signals ≡ (job.pgid, sigcont) ∷ (if result == 3 then (job.pgid, sigterm) ∷ [] else []))
unfolding after_wait
after_wait-find t job cmdline result m ok = ground (
  arith,
  (find_job-remove_job_by_number t job.job_number m ok).1,
  (find_job-changed t job.job_number m ok).5,
)

-- The job that a request in an `int`'s range names, among those that were looked up.
find_activity-named :
    (t : Table) (n : ℕ) (j : BackgroundJob)
    → IsTable t
    → n < 2 ^ 31
    → find_job n t.jobs ≡ some j
    → find_activity (to_int n) (get_activities t 100) ≡ some (activity_job j)
unfolding get_activities
find_activity-named t n j ok small found = rw (to_int-small n small) (
    find_activity-activities t.next_job_number 100 n t.jobs ok.jobs_ok ok.few_jobs
    ∙ ap activity_of found)

fg_find :
    (n m result : ℕ) (x : Option BackgroundJob) (js : List BackgroundJob) (j : BackgroundJob)
    → x ≡ (if n == m then map_job (settled_job running) (find_job m js) else find_job m js)
    → find_job n js ≡ some j
    → (if n == m then (if result == 1 then map_job (settled_job stopped) x else none) else x)
      ≡ (if n == m then left_of result j else find_job m js)
fg_find n m result x js j h found = elim (Bool-cases (n == m)) [
  | inl this ↦
      let same : n ≡ m = ground (arith, this) in
      let here : x ≡ some (settled_job running j) =
        (rw this at h) ∙ ap (map_job (settled_job running)) ((rw same refl) ∙ found) in
      rw (this, here) refl
  | inr other ↦ rw other (rw other at h)
]

module _ (a : Alarm) (t : Table) (reports : List WaitReport) (ts : List Token) (request : Request)
    (j : BackgroundJob) where
  exec_resume-continues :
      IsTable t
      → parse_resume ts ≡ some request
      → request.number < 2 ^ 31
      → find_job request.number t.jobs ≡ some j
      → no_procs (activity_job j) ≡ false
      → exec_resume a t [] reports ts
        ≡ continue_job a request t
            (activity_job j)
            (shown (activity_job j).cmdline (activity_job j).procs)
            reports
  unfolding exec_resume sigchld_handler
  exec_resume-continues ok parsed small found live =
      rw (parsed, find_activity-named t request.number j ok small found, live) refl

  -- `resume` with `fg` and a number below 2 ^ 31, for a job of a sound table with a process that has
  -- not exited, no child changing between the look-up and the block, and a wait that gives a result: it
  -- returns 0, the job is continued, and behind a stop it stays, the state of each process that had not
  -- exited being stopped; else it is gone, and behind a timeout its group is sent SIGTERM. Every other
  -- job stays as it was.
  pub resume_fg_lem :
      (result m : ℕ) (alarm : Alarm)
      → IsTable t
      → parse_resume ts ≡ some request
      → request.is_fg ≡ true
      → request.number < 2 ^ 31
      → find_job request.number t.jobs ≡ some j
      → no_procs (activity_job j) ≡ false
      → wait_foreground_group_timeout a
          (pids (activity_job j).procs)
          (seconds request.timeout_seconds)
          reports
        ≡ some (result, alarm)
      → (r : Resumed) × (exec_resume a t [] reports ts ≡ some r)
        × (r.code ≡ 0)
        × (find_job m r.table.jobs
            ≡ (if request.number == m then left_of result j else find_job m t.jobs))
        × (r.signals ≡ (j.pgid, sigcont) ∷ (if result == 3 then (j.pgid, sigterm) ∷ [] else []))
  unfolding continue_job
  resume_fg_lem result m alarm ok parsed fg small found live wait =
      let job = activity_job j in
      let t' = (mark_job_running t j.job_number).1 in
      let going : IsTable t' = Step-IsTable {t = t} (resume j.job_number) ok in
      let cmdline = shown job.cmdline job.procs in
      let after = after_wait-find t' job cmdline result m going in
      let marked = (find_job-changed t j.job_number m ok).3 in
      let number = find_job-number request.number t.jobs j found in
      (
        after_wait t' job cmdline result,
        exec_resume-continues ok parsed small found live ∙ (rw (fg, wait) refl),
        after.0,
        rw (sym number) (
            after.1
            ∙ fg_find j.job_number m result _ t.jobs j marked
                (ap (λ k. find_job k t.jobs) number ∙ found)),
        after.2,
      )

  -- With `bg` it returns 0 at once: the job is continued, its live processes run, and every other job
  -- stays.
  pub resume_bg_lem :
      (m : ℕ)
      → IsTable t
      → parse_resume ts ≡ some request
      → request.is_fg ≡ false
      → request.number < 2 ^ 31
      → find_job request.number t.jobs ≡ some j
      → no_procs (activity_job j) ≡ false
      → (r : Resumed) × (exec_resume a t [] reports ts ≡ some r)
        × (r.code ≡ 0)
        × (find_job m r.table.jobs ≡ (
            if request.number == m
            then map_job (settled_job running) (find_job m t.jobs)
            else find_job m t.jobs))
        × (r.signals ≡ (j.pgid, sigcont) ∷ [])
  unfolding continue_job
  resume_bg_lem m ok parsed bg small found live =
      let number = find_job-number request.number t.jobs j found in
      let marked = (find_job-changed t j.job_number m ok).3 in
      let r : Resumed = record {
        code = 0;
        table = (mark_job_running t j.job_number).1;
        lines =
            running_line j.job_number (shown (activity_job j).cmdline (activity_job j).procs) ∷ [];
        signals = (j.pgid, sigcont) ∷ [];
      } in
      (
        r,
        exec_resume-continues ok parsed small found live ∙ (rw bg refl),
        refl,
        rw (sym number) marked,
        refl,
      )
