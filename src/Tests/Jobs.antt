-- ===== src/Tests/Jobs.antt =====
-- The job table.
use c_shell.Base.{ℕ, ◌≡◌, refl, false, List, [], ◌∷◌, none, Bytes, codes, arith}
use c_shell.Jobs.{
  running, stopped, Table, empty_table, exited, signaled, sigchld_handler, register_background_job,
  drain_background_notifications, finished,
}
use c_shell.Jobs.Control.{mark_job_running, mark_job_stopped, remove_job_by_number}
use c_shell.Jobs.Invariant.{All, IsTable}
use c_shell.Jobs.Steps
use c_shell.Jobs.Steps.{Reach, Reach-IsTable}
use c_shell.Jobs.Lookup.{find_job, is_some, map_job, settled_job, find_job-changed}
use c_shell.Jobs.Notify.{IsLive}
use c_shell.Jobs.Drained.{Life, Drains, drain-IsLive}

abbrev sleep : List (ℕ × Bytes)
sleep = (30, codes "sleep") ∷ []

abbrev pipeline : List (ℕ × Bytes)
pipeline = (40, codes "cat") ∷ (41, codes "wc") ∷ []

abbrev one_job : Table
one_job = (register_background_job empty_table 30 sleep (codes "sleep 9")).0

abbrev two_jobs : Table
two_jobs = (register_background_job one_job 40 pipeline (codes "cat | wc")).0

two_jobs-Reach : Reach two_jobs
two_jobs-Reach =
    Reach.step (Reach.step Reach.start (Steps.Step.background 30 sleep (codes "sleep 9")))
      (Steps.Step.background 40 pipeline (codes "cat | wc"))

Reach-IsTable_example : IsTable two_jobs
Reach-IsTable_example = Reach-IsTable two_jobs-Reach

find_job-changed_example :
    ((remove_job_by_number two_jobs 2).0 ≡ is_some (find_job 2 two_jobs.jobs))
    × (find_job 2 (remove_job_by_number two_jobs 2).1.jobs ≡ none)
    × ((mark_job_running two_jobs 2).0 ≡ is_some (find_job 2 two_jobs.jobs))
    × (find_job 2 (mark_job_running two_jobs 2).1.jobs
        ≡ map_job (settled_job running) (find_job 2 two_jobs.jobs))
    × ((mark_job_stopped two_jobs 2).0 ≡ is_some (find_job 2 two_jobs.jobs))
    × (find_job 2 (mark_job_stopped two_jobs 2).1.jobs
        ≡ map_job (settled_job stopped) (find_job 2 two_jobs.jobs))
find_job-changed_example = find_job-changed two_jobs 2 2 Reach-IsTable_example

-- `wc` ends, and then `cat`.
abbrev after_exits : Table
after_exits = sigchld_handler two_jobs ((41, exited) ∷ (40, signaled) ∷ [])

after_exits-Life : Life after_exits
unfolding register_background_job
after_exits-Life = Life.sigchld ((41, exited) ∷ (40, signaled) ∷ []) (
    Life.background 40 pipeline (codes "cat | wc") ((λ e. absurd (omega arith)), tt)
      (Life.background 30 sleep (codes "sleep 9") tt Life.start))

drain-IsLive_example :
    Drains after_exits (drain_background_notifications after_exits).0
    × ((u : Table) → Drains after_exits u → All IsLive u.jobs)
drain-IsLive_example = drain-IsLive after_exits-Life

-- The finished job is announced once, under its first pid, and removed.
drain_runs : (drain_background_notifications after_exits).1 ≡ finished (codes "cat") 40 false ∷ []
unfolding drain_background_notifications register_background_job sigchld_handler
drain_runs = refl
