-- ===== src/Terminal/Eof.antt =====
-- `handle_eof` of terminal.c against the job table itself.
use c_shell.Base.{
  ℕ, zero, suc, ◌≤◌, ◌≡◌, refl, Bool, true, false, not, ◌&&◌, ◌||◌, List, [], ◌∷◌, length, ltb,
  if◌then◌else◌, arith,
}
use c_shell.Jobs.{Proc, BackgroundJob, Table, max_procs}
use c_shell.Jobs.Control.{is_stopped, live_procs, activities_loop, get_activities}
use c_shell.Jobs.Invariant.{All, IsJob, IsTable}
use c_shell.Terminal.{send_sighup, stopped_proc, stopped_among, handle_eof}

-- A process of the job is stopped and has not exited.
pub has_stopped : List Proc → Bool
has_stopped [] = false
has_stopped (p ∷ ps) = (not p.exited && is_stopped p.state) || has_stopped ps

pub some_stopped : List BackgroundJob → Bool
some_stopped [] = false
some_stopped (j ∷ js) = has_stopped j.procs || some_stopped js

-- The groups of all jobs.
pub groups : List BackgroundJob → List ℕ
groups [] = []
groups (j ∷ js) = if ltb 0 j.pgid then j.pgid ∷ groups js else groups js

stopped_proc-live_procs :
    (room : ℕ) (ps : List Proc)
    → length ps ≤ room
    → stopped_proc (live_procs room ps) ≡ has_stopped ps
unfolding stopped_proc live_procs has_stopped
stopped_proc-live_procs room [] h = refl
stopped_proc-live_procs zero (p ∷ ps) h = absurd (omega arith)
stopped_proc-live_procs (suc room) (p ∷ ps) h =
    ground (arith, stopped_proc-live_procs room ps, stopped_proc-live_procs (suc room) ps)

stopped_among-activities :
    (next room : ℕ) (js : List BackgroundJob)
    → All (IsJob next) js
    → length js ≤ room
    → stopped_among (activities_loop room js) ≡ some_stopped js
unfolding stopped_among activities_loop some_stopped
stopped_among-activities next room [] ok h = refl
stopped_among-activities next zero (j ∷ js) ok h = absurd (omega arith)
stopped_among-activities next (suc room) (j ∷ js) ok h = ground (
  arith,
  ok.0.active,
  stopped_proc-live_procs max_procs j.procs ok.0.few_procs,
  stopped_among-activities next room js ok.1,
)

send_sighup-activities :
    (next room : ℕ) (js : List BackgroundJob)
    → All (IsJob next) js
    → length js ≤ room
    → send_sighup (activities_loop room js) ≡ groups js
unfolding send_sighup activities_loop groups
send_sighup-activities next room [] ok h = refl
send_sighup-activities next zero (j ∷ js) ok h = absurd (omega arith)
send_sighup-activities next (suc room) (j ∷ js) ok h =
    ground (arith, ok.0.active, send_sighup-activities next room js ok.1)

-- At the end of input the shell leaves exactly if no process in the table is stopped or the input
-- before was an end too, and then SIGHUP goes to the group of every job; else it warns, sends
-- nothing, and remembers the end of input.
pub handle_eof_lem :
    (t : Table) (previous_eof : Bool)
    → IsTable t
    → let r = handle_eof t previous_eof in
      (r.leaves ≡ (not (some_stopped t.jobs) || previous_eof))
      × (r.warned ≡ not r.leaves)
      × (r.hung_up ≡ (if r.leaves then groups t.jobs else []))
      × (r.previous_eof ≡ (if r.leaves then previous_eof else true))
unfolding handle_eof get_activities
handle_eof_lem t previous_eof ok = ground (
  arith,
  stopped_among-activities t.next_job_number 100 t.jobs ok.jobs_ok ok.few_jobs,
  send_sighup-activities t.next_job_number 100 t.jobs ok.jobs_ok ok.few_jobs,
)
