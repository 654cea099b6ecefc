-- ===== src/Jobs/Control.antt =====
-- What the built-in commands do with the job table (c-shell/src/background.c and activities.c).
use c_shell.Base.{
  ℕ, zero, suc, Bool, true, false, not, ◌&&◌, List, [], ◌∷◌, some, none, take, ◌==◌, if◌then◌else◌,
  Bytes,
}
use c_shell.Jobs.{ProcState, running, stopped, Proc, BackgroundJob, Table, max_procs, remove_first}

-- `struct activity_proc`
pub record ActivityProc : Type 0 where
  pub pid : ℕ
  pub name : Bytes
  pub stopped : Bool

-- `struct activity_job`
pub record ActivityJob : Type 0 where
  pub job_number : ℕ
  pub pgid : ℕ
  pub procs : List ActivityProc
  pub cmdline : Bytes

abbrev pub is_stopped : ProcState → Bool
is_stopped stopped = true
is_stopped running = false

abbrev pub activity_proc : Proc → ActivityProc
activity_proc p = record { pid = p.pid; name = take 63 p.name; stopped = is_stopped p.state }

-- The inner loop, with `room` places left in `dst->procs`.
unfoldable pub live_procs : ℕ → List Proc → List ActivityProc
live_procs room [] = []
live_procs zero (p ∷ ps) = []
live_procs (suc room) (p ∷ ps) = elim p.exited [
  | true ↦ live_procs (suc room) ps
  | false ↦ activity_proc p ∷ live_procs room ps
]

abbrev pub activity_job : BackgroundJob → ActivityJob
activity_job j = record {
  job_number = j.job_number;
  pgid = j.pgid;
  procs = live_procs max_procs j.procs;
  cmdline = take 255 j.cmdline;
}

-- The outer loop, with `room` places left in `out`.
unfoldable pub activities_loop : ℕ → List BackgroundJob → List ActivityJob
activities_loop room [] = []
activities_loop zero (j ∷ js) = []
activities_loop (suc room) (j ∷ js) = elim j.active [
  | true ↦ activity_job j ∷ activities_loop room js
  | false ↦ activities_loop (suc room) js
]

unfoldable pub get_activities : Table → ℕ → List ActivityJob
get_activities t max_jobs = activities_loop max_jobs t.jobs

abbrev pub numbered : ℕ → BackgroundJob → Bool
numbered n j = j.active && j.job_number == n

-- The loop over the processes in `mark_job_running` and `mark_job_stopped`.
unfoldable pub mark_procs : ProcState → List Proc → List Proc
mark_procs s [] = []
mark_procs s (p ∷ ps) = (if not p.exited then record p { state = s } else p) ∷ mark_procs s ps

-- The first job that passes the test is changed; the flag tells whether there is one.
unfoldable pub update_first :
    (BackgroundJob → Bool)
    → (BackgroundJob → BackgroundJob)
    → List BackgroundJob
    → Bool × List BackgroundJob
update_first test change [] = (false, [])
update_first test change (j ∷ js) =
    let rest = update_first test change js in
    if test j then (true, change j ∷ js) else (rest.0, j ∷ rest.1)

abbrev pub mark_procs_of : ProcState → BackgroundJob → BackgroundJob
mark_procs_of s j = record j { procs = mark_procs s j.procs }

unfoldable pub mark_job_running : Table → ℕ → Bool × Table
mark_job_running t n =
    let r = update_first (numbered n) (mark_procs_of running) t.jobs in
    (r.0, record t { jobs = r.1 })

unfoldable pub mark_job_stopped : Table → ℕ → Bool × Table
mark_job_stopped t n =
    let r = update_first (numbered n) (mark_procs_of ProcState.stopped) t.jobs in
    (r.0, record t { jobs = r.1 })

unfoldable pub remove_job_by_number : Table → ℕ → Bool × Table
remove_job_by_number t n = elim (remove_first (numbered n) t.jobs) [
  | none ↦ (false, t)
  | some r ↦ (true, record t { jobs = r.1 })
]

unfoldable pub set_job_cmdline : Table → ℕ → Bytes → Table
set_job_cmdline t pgid cmdline = record t {
  jobs =
      (update_first (λ j. j.active && j.pgid == pgid) (λ j. record j { cmdline = take 255 cmdline })
        t.jobs).1;
}
