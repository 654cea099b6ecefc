-- ===== src/Activities.antt =====
-- The `activities` command: c-shell/src/activities.c.
use c_shell.Base.{
  ℕ, zero, suc, ◌≤◌, ◌≡◌, refl, ap, Bool, List, [], ◌∷◌, ◌++◌, length, take, if◌then◌else◌, Bytes,
  Bool-cases, inl, inr, arith,
}
use c_shell.Jobs.{Proc, BackgroundJob, Table, max_procs}
use c_shell.Jobs.Control.{
  ActivityProc, ActivityJob, is_stopped, live_procs, activities_loop, get_activities,
}
use c_shell.Jobs.Invariant.{All, IsJob, IsTable}

-- A line: the number and group of a job, or the id, the name and the state of a process.
pub data Line : Type 0 where
  job : ℕ → ℕ → Line
  process : ℕ → Bytes → Bool → Line

-- The loops over the processes and over the jobs.
unfoldable pub proc_lines : List ActivityProc → List Line
proc_lines [] = []
proc_lines (p ∷ ps) = process p.pid p.name p.stopped ∷ proc_lines ps

unfoldable pub job_lines : List ActivityJob → List Line
unfolding proc_lines
job_lines [] = []
job_lines (j ∷ js) = job j.job_number j.pgid ∷ (proc_lines j.procs ++ job_lines js)

unfoldable pub exec_activities : Table → List Line
unfolding job_lines get_activities
exec_activities t = job_lines (get_activities t 100)

-- The processes of a job that have not exited, and the jobs with them.
unfoldable pub live_lines : List Proc → List Line
live_lines [] = []
live_lines (p ∷ ps) =
    let rest = live_lines ps in
    if p.exited then rest else process p.pid (take 63 p.name) (is_stopped p.state) ∷ rest

unfoldable pub table_lines : List BackgroundJob → List Line
table_lines [] = []
table_lines (j ∷ js) = job j.job_number j.pgid ∷ (live_lines j.procs ++ table_lines js)

proc_lines-live :
    (room : ℕ) (ps : List Proc) → length ps ≤ room → proc_lines (live_procs room ps) ≡ live_lines ps
unfolding proc_lines live_procs live_lines
proc_lines-live room [] h = refl
proc_lines-live zero (p ∷ ps) h = absurd (omega arith)
proc_lines-live (suc room) (p ∷ ps) h = elim (Bool-cases p.exited) [
  | inl e ↦ rw e (proc_lines-live (suc room) ps (omega (arith, h)))
  | inr e ↦ rw e (
      ap (◌∷◌ (process p.pid (take 63 p.name) (is_stopped p.state)))
        (proc_lines-live room ps (omega (arith, h))))
]

job_lines-table :
    (next room : ℕ) (js : List BackgroundJob)
    → All (IsJob next) js
    → length js ≤ room
    → job_lines (activities_loop room js) ≡ table_lines js
unfolding job_lines activities_loop table_lines
job_lines-table next room [] ok h = refl
job_lines-table next zero (j ∷ js) ok h = absurd (omega arith)
job_lines-table next (suc room) (j ∷ js) ok h =
    rw
      (
        ok.0.active,
        proc_lines-live max_procs j.procs ok.0.few_procs,
        job_lines-table next room js ok.1 (omega (arith, h)),
      )
      refl

-- For a sound table `activities` prints a line for each job, in the order of the table, and below it
-- one for each of its processes that has not exited, with the first 63 bytes of its name.
pub exec_activities-table : (t : Table) → IsTable t → exec_activities t ≡ table_lines t.jobs
unfolding exec_activities
exec_activities-table t ok = job_lines-table t.next_job_number 100 t.jobs ok.jobs_ok ok.few_jobs
