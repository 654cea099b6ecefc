-- ===== src/Tests/Terminal.antt =====
-- The waiting loops and the end of input.
use c_shell.Base.{
  ◌≡◌, ◌⊎◌, inl, inr, refl, true, false, not, ◌||◌, List, [], ◌∷◌, some, if◌then◌else◌, codes,
  arith,
}
use c_shell.Jobs.{empty_table, exited, signaled, register_stopped_job}
use c_shell.Jobs.Invariant.{IsTable}
use c_shell.Jobs.Steps
use c_shell.Jobs.Steps.{Reach, Reach-IsTable}
use c_shell.Terminal.{
  WaitReport, interrupted, child, no_alarm, wait_foreground_group, wait_foreground_group_timeout,
  wait_loop, timeout_loop, mark_finished, handle_eof,
}
use c_shell.Terminal.Waits.{code_of, timeout-eq-wait}
use c_shell.Terminal.Ends.{wait_foreground_group_returns}
use c_shell.Terminal.Eof.{some_stopped, groups, handle_eof_lem}

abbrev reports : List WaitReport
reports = interrupted false ∷ child 8 exited ∷ child 7 signaled ∷ []

timeout-eq-wait_example :
    code_of (wait_foreground_group_timeout no_alarm (7 ∷ 8 ∷ []) 5 reports)
    ≡ wait_foreground_group (7 ∷ 8 ∷ []) reports
timeout-eq-wait_example = timeout-eq-wait no_alarm (7 ∷ 8 ∷ []) 5 reports (refl, tt)

wait_runs : wait_foreground_group (7 ∷ 8 ∷ []) reports ≡ some 2
unfolding wait_foreground_group wait_loop mark_finished
wait_runs = refl

timed_out_run :
    wait_foreground_group_timeout no_alarm (7 ∷ []) 5 (interrupted true ∷ []) ≡ some (3, no_alarm)
unfolding wait_foreground_group_timeout timeout_loop
timed_out_run = refl

wait_foreground_group_returns_example :
    (wait_foreground_group (7 ∷ 8 ∷ []) reports ≡ some 0)
    ⊎ (wait_foreground_group (7 ∷ 8 ∷ []) reports ≡ some 2)
wait_foreground_group_returns_example =
    wait_foreground_group_returns (7 ∷ 8 ∷ []) reports (((λ e. absurd (omega arith)), tt), (tt, tt))
      (inr (inl (refl, refl)), (inl (refl, refl), tt)) (refl, (refl, tt))

stopped_jobs-IsTable :
    IsTable (register_stopped_job empty_table 9 ((9, codes "vi") ∷ []) (codes "vi")).0
stopped_jobs-IsTable =
    Reach-IsTable
      (Reach.step Reach.start (Steps.Step.suspend 9 ((9, codes "vi") ∷ []) (codes "vi")))

handle_eof_lem_example :
    let t = (register_stopped_job empty_table 9 ((9, codes "vi") ∷ []) (codes "vi")).0 in
    let r = handle_eof t false in
    (r.leaves ≡ (not (some_stopped t.jobs) || false))
    × (r.warned ≡ not r.leaves)
    × (r.hung_up ≡ (if r.leaves then groups t.jobs else []))
    × (r.previous_eof ≡ (if r.leaves then false else true))
handle_eof_lem_example =
    handle_eof_lem (register_stopped_job empty_table 9 ((9, codes "vi") ∷ []) (codes "vi")).0 false
      stopped_jobs-IsTable
