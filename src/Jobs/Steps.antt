-- ===== src/Jobs/Steps.antt =====
-- The job table over time: every call of background.c that changes it, in any order.
use c_shell.Base.{ℕ, ◌≡◌, ◌∷◌, List, Bytes, arith}
use c_shell.Jobs.{
  running, stopped, Table, empty_table, WaitStatus, sigchld_handler, register_background_job,
  register_stopped_job, Notification, drained,
}
use c_shell.Jobs.Control.{
  numbered, mark_job_running, mark_job_stopped, remove_job_by_number, set_job_cmdline,
}
use c_shell.Jobs.Invariant.{IsTable}
use c_shell.Jobs.Keeps.{
  sigchld_handler-IsTable, register_background_job-IsTable, register_stopped_job-IsTable,
  drain_one-IsTable, mark-IsTable, remove_job_by_number-IsTable, set_job_cmdline-IsTable,
}

-- The calls that change the table, with any arguments, and the turns of the loop of
-- `drain_background_notifications`, between which the handler may run.
pub data Step (t : Table) : Table → Type 0 where
  sigchld : (events : List (ℕ × WaitStatus)) → Step t (sigchld_handler t events)
  background :
      (pgid : ℕ) (procs : List (ℕ × Bytes)) (cmdline : Bytes)
      → Step t (register_background_job t pgid procs cmdline).0
  suspend :
      (pgid : ℕ) (procs : List (ℕ × Bytes)) (cmdline : Bytes)
      → Step t (register_stopped_job t pgid procs cmdline).0
  drain : (n : Notification) (ns : List Notification) → t.pipe ≡ n ∷ ns → Step t (drained n ns t)
  resume : (n : ℕ) → Step t (mark_job_running t n).1
  stop : (n : ℕ) → Step t (mark_job_stopped t n).1
  remove : (n : ℕ) → Step t (remove_job_by_number t n).1
  rename : (pgid : ℕ) (cmdline : Bytes) → Step t (set_job_cmdline t pgid cmdline)

pub data Reach : Table → Type 0 where
  start : Reach empty_table
  step : {t u : Table} → Reach t → Step t u → Reach u

pub Step-IsTable : {t u : Table} → Step t u → IsTable t → IsTable u
unfolding mark_job_running mark_job_stopped drained
Step-IsTable {t} (sigchld events) ok = sigchld_handler-IsTable t events ok
Step-IsTable {t} (background pgid procs cmdline) ok =
    register_background_job-IsTable t pgid procs cmdline ok
Step-IsTable {t} (suspend pgid procs cmdline) ok =
    register_stopped_job-IsTable t pgid procs cmdline ok
Step-IsTable {t} (drain n ns e) ok = drain_one-IsTable t n ns ok
Step-IsTable {t} (resume n) ok = mark-IsTable t running (numbered n) ok
Step-IsTable {t} (stop n) ok = mark-IsTable t stopped (numbered n) ok
Step-IsTable {t} (remove n) ok = remove_job_by_number-IsTable t n ok
Step-IsTable {t} (rename pgid cmdline) ok = set_job_cmdline-IsTable t pgid cmdline ok

-- Whatever calls are made from the empty table on, in any order and with any arguments, and as long as
-- SIGCHLD does not interrupt a drain inside a turn of its loop, where a job is moved: there are at
-- most 100 jobs of at most 100 processes each, their numbers are distinct, at least 1 and below the
-- next one to be given, every job is active, and `remaining` is the number of its processes that
-- have not exited.
pub Reach-IsTable : {t : Table} → Reach t → IsTable t
Reach-IsTable start = record {
  next_positive = omega arith;
  few_jobs = omega arith;
  jobs_ok = tt;
  distinct = tt;
}
Reach-IsTable (step r s) = Step-IsTable s (Reach-IsTable r)
