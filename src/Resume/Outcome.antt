-- ===== src/Resume/Outcome.antt =====
-- What `exec_resume` of c-shell/src/resume.c makes of a job.
use c_shell.Base.{
  ℕ, ◌≡◌, subst, List, Option, some, none, Bytes, arith, Bool-cases, Option-cases, inl, inr,
}
use c_shell.Lexer.{Token}
use c_shell.Jobs.{Table, WaitStatus, sigchld_handler}
use c_shell.Jobs.Control.{ActivityJob, get_activities}
use c_shell.Jobs.Invariant.{IsTable}
use c_shell.Jobs.Steps.{sigchld, resume, stop, remove, Step-IsTable}
use c_shell.Terminal.{WaitReport, Alarm, wait_foreground_group_timeout}
use c_shell.Numbers.{to_int}
use c_shell.Ping.{find_activity}
use c_shell.Resume.{
  Request, parse_resume, Resumed, no_procs, pids, shown, seconds, after_wait, continue_job,
  resume_job, look_up_job, resume_request, exec_resume,
}

-- A sound table behind the command, if it returns.
abbrev Leaves : Option Resumed → Type 0
Leaves none = Unit
Leaves (some r) = IsTable r.table

after_wait-IsTable :
    (t : Table) (job : ActivityJob) (cmdline : Bytes) (result : ℕ)
    → IsTable t
    → IsTable (after_wait t job cmdline result).table
unfolding after_wait
after_wait-IsTable t job cmdline result ok =
    let gone = Step-IsTable {t = t} (remove job.job_number) ok in
    let kept = Step-IsTable {t = t} (stop job.job_number) ok in ground (arith, gone, kept)

continue_job-Leaves :
    (a : Alarm) (request : Request) (t : Table) (job : ActivityJob) (cmdline : Bytes)
    (reports : List WaitReport)
    → IsTable t
    → Leaves (continue_job a request t job cmdline reports)
unfolding continue_job
continue_job-Leaves a request t job cmdline reports ok =
    let going = Step-IsTable {t = t} (resume job.job_number) ok in
    let result =
      wait_foreground_group_timeout a (pids job.procs) (seconds request.timeout_seconds) reports in
    elim (Bool-cases request.is_fg) [
      | inr bg ↦ rw bg going
      | inl fg ↦ rw fg elim (Option-cases result) [
        | inl waits ↦ rw waits tt
        | inr (r, returns) ↦ rw returns (after_wait-IsTable _ job cmdline r.0 going)
      ]
    ]

resume_job-Leaves :
    (a : Alarm) (request : Request) (t : Table) (reports : List WaitReport) (job : ActivityJob)
    → IsTable t
    → Leaves (resume_job a request t reports job)
resume_job-Leaves a request t reports job ok = elim (Bool-cases (no_procs job)) [
  | inl over ↦ rw over (Step-IsTable {t = t} (remove job.job_number) ok)
  | inr live ↦
      rw live (continue_job-Leaves a request t job (shown job.cmdline job.procs) reports ok)
]

look_up_job-Leaves :
    (a : Alarm) (t : Table) (events : List (ℕ × WaitStatus)) (reports : List WaitReport)
    (request : Request) (o : Option ActivityJob)
    → IsTable t
    → Leaves (look_up_job a t events reports request o)
look_up_job-Leaves a t events reports request none ok = Step-IsTable (sigchld events) ok
look_up_job-Leaves a t events reports request (some job) ok =
    resume_job-Leaves a request (sigchld_handler t events) reports job
      (Step-IsTable (sigchld events) ok)

resume_request-Leaves :
    (a : Alarm) (t : Table) (events : List (ℕ × WaitStatus)) (reports : List WaitReport)
    (o : Option Request)
    → IsTable t
    → Leaves (resume_request a t events reports o)
resume_request-Leaves a t events reports none ok = Step-IsTable (sigchld events) ok
resume_request-Leaves a t events reports (some request) ok =
    look_up_job-Leaves a t events reports request
      (find_activity (to_int request.number) (get_activities t 100)) ok

-- Whatever its arguments, whatever children are reported before SIGCHLD is blocked and whatever the
-- waiting loop gets, `resume` leaves a sound job table, if it returns.
pub exec_resume-IsTable :
    (a : Alarm) (t : Table) (events : List (ℕ × WaitStatus)) (reports : List WaitReport)
    (ts : List Token) (r : Resumed)
    → IsTable t
    → exec_resume a t events reports ts ≡ some r
    → IsTable r.table
unfolding exec_resume
exec_resume-IsTable a t events reports ts r ok returns =
    subst Leaves returns (resume_request-Leaves a t events reports (parse_resume ts) ok)
