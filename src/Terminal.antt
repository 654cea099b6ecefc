-- ===== src/Terminal.antt =====
-- Waiting for the foreground group and the end of input: c-shell/src/terminal.c. What `waitpid`
-- reports, call after call, is a list; a loop that has used it up is still waiting.
pub mod Waits
pub mod Ends
pub mod Eof
use c_shell.Base.{
  ℕ, zero, suc, ◌+◌, Bool, true, false, not, ◌&&◌, ◌||◌, List, [], ◌∷◌, ◌++◌, map, Option, some,
  none, length, ltb, ◌==◌, if◌then◌else◌,
}
use c_shell.Jobs.{Table, WaitStatus, signaled, stopped, is_end}
use c_shell.Jobs.Control.{ActivityProc, ActivityJob, get_activities}

-- What a call of `waitpid(-pgid, &status, WUNTRACED)` gives: -1 with EINTR, and whether
-- `resume_alarm_fired` is set by then; -1 with another error; or a child and its status.
pub data WaitReport : Type 0 where
  interrupted : Bool → WaitReport
  failed : WaitReport
  child : ℕ → WaitStatus → WaitReport

-- `pids` with `finished`
abbrev pub Marks : Type 0
Marks = List (ℕ × Bool)

-- The loop that marks the first process with this pid that is not marked; the number added to
-- `finished_count` comes back too.
unfoldable pub mark_finished : ℕ → Marks → Marks × ℕ
mark_finished pid [] = ([], 0)
mark_finished pid ((p, done) ∷ ms) =
    let rest = mark_finished pid ms in
    if p == pid && not done then ((p, true) ∷ ms, 1) else ((p, done) ∷ rest.0, rest.1)

abbrev pub is_signaled : WaitStatus → Bool
is_signaled signaled = true
is_signaled _ = false

abbrev pub is_stop : WaitStatus → Bool
is_stop stopped = true
is_stop _ = false

-- `was_signaled ? 2 : 0`
abbrev pub ended : Bool → ℕ
ended was_signaled = if was_signaled then 2 else 0

-- The `while` loop; `none` means that it still waits. (A failure breaks the loop to the same return
-- that its test leads to.)
unfoldable pub wait_loop : Marks → ℕ → Bool → List WaitReport → Option ℕ
wait_loop ms count sig [] = if ltb count (length ms) then none else some (ended sig)
wait_loop ms count sig (interrupted fired ∷ reports) =
    let rest = wait_loop ms count sig reports in
    if ltb count (length ms) then rest else some (ended sig)
wait_loop ms count sig (failed ∷ reports) = some (ended sig)
wait_loop ms count sig (child pid status ∷ reports) = elim (ltb count (length ms)) [
  | false ↦ some (ended sig)
  | true ↦ elim (is_stop status) [
    | true ↦ some 1
    | false ↦ elim (is_end status) [
      | true ↦
          wait_loop (mark_finished pid ms).0 (count + (mark_finished pid ms).1)
            (sig || is_signaled status) reports
      | false ↦ wait_loop ms count (sig || is_signaled status) reports
    ]
  ]
]

abbrev pub unmarked : List ℕ → Marks
unmarked [] = []
unmarked (p ∷ ps) = (p, false) ∷ unmarked ps

unfoldable pub wait_foreground_group : List ℕ → List WaitReport → Option ℕ
wait_foreground_group pids reports = wait_loop (unmarked pids) 0 false reports

-- Whether an alarm is due, and whether SIGALRM goes to `resume_alarm_handler`.
pub record Alarm : Type 0 where
  pub due : Bool
  pub ours : Bool

abbrev pub no_alarm : Alarm
no_alarm = record { due = false; ours = false }

-- `if (timeout_seconds > 0) { sigaction(SIGALRM, &sa, &old_sa); alarm(timeout_seconds); }`
abbrev pub arm : ℕ → Alarm → Alarm
arm seconds a = if ltb 0 seconds then record { due = true; ours = true } else a

-- `if (timeout_seconds > 0) { alarm(0); sigaction(SIGALRM, &old_sa, NULL); }`
abbrev pub disarm : ℕ → Alarm → Alarm
disarm seconds a = if ltb 0 seconds then record { due = false; ours = false } else a

-- Behind a fired alarm: none is due any more, and the old handler is put back.
abbrev pub after_alarm : ℕ → Alarm → Alarm
after_alarm seconds a = if ltb 0 seconds then record { due = false; ours = false } else a

-- The loop with a timeout: the code that it returns, and the alarm that it leaves.
unfoldable pub timeout_loop : ℕ → Alarm → Marks → ℕ → Bool → List WaitReport → Option (ℕ × Alarm)
timeout_loop seconds a ms count sig [] =
    if ltb count (length ms) then none else some (ended sig, disarm seconds a)
timeout_loop seconds a ms count sig (interrupted fired ∷ reports) =
    let rest = timeout_loop seconds a ms count sig reports in
    if ltb count (length ms)
    then (if fired then some (3, after_alarm seconds a) else rest)
    else some (ended sig, disarm seconds a)
timeout_loop seconds a ms count sig (failed ∷ reports) = some (ended sig, disarm seconds a)
timeout_loop seconds a ms count sig (child pid status ∷ reports) = elim (ltb count (length ms)) [
  | false ↦ some (ended sig, disarm seconds a)
  | true ↦ elim (is_stop status) [
    | true ↦ some (1, disarm seconds a)
    | false ↦ elim (is_end status) [
      | true ↦
          timeout_loop seconds a (mark_finished pid ms).0 (count + (mark_finished pid ms).1)
            (sig || is_signaled status) reports
      | false ↦ timeout_loop seconds a ms count (sig || is_signaled status) reports
    ]
  ]
]

unfoldable pub wait_foreground_group_timeout :
    Alarm → List ℕ → ℕ → List WaitReport → Option (ℕ × Alarm)
wait_foreground_group_timeout a pids seconds reports =
    timeout_loop seconds (arm seconds a) (unmarked pids) 0 false reports

-- `send_sighup_to_all_jobs`: the groups that are sent SIGHUP.
unfoldable pub send_sighup : List ActivityJob → List ℕ
send_sighup [] = []
send_sighup (j ∷ js) = if ltb 0 j.pgid then j.pgid ∷ send_sighup js else send_sighup js

abbrev pub send_sighup_to_all_jobs : Table → List ℕ
send_sighup_to_all_jobs t = send_sighup (get_activities t 100)

unfoldable pub stopped_proc : List ActivityProc → Bool
stopped_proc [] = false
stopped_proc (p ∷ ps) = if p.stopped then true else stopped_proc ps

-- The loops of `handle_eof`.
unfoldable pub stopped_among : List ActivityJob → Bool
unfolding stopped_proc
stopped_among [] = false
stopped_among (j ∷ js) = if stopped_proc j.procs then true else stopped_among js

-- What the end of input leads to: the returned flag, `previous_eof`, whether the warning is printed,
-- and the groups that are sent SIGHUP.
pub record EofResult : Type 0 where
  pub leaves : Bool
  pub previous_eof : Bool
  pub warned : Bool
  pub hung_up : List ℕ

unfoldable pub handle_eof : Table → Bool → EofResult
unfolding stopped_among send_sighup
handle_eof t previous_eof =
    if not (stopped_among (get_activities t 100))
    then record {
      leaves = true;
      previous_eof = previous_eof;
      warned = false;
      hung_up = send_sighup_to_all_jobs t;
    }
    else if not previous_eof
    then record { leaves = false; previous_eof = true; warned = true; hung_up = [] }
    else record {
      leaves = true;
      previous_eof = previous_eof;
      warned = false;
      hung_up = send_sighup_to_all_jobs t;
    }

abbrev pub reset_eof_state : Bool → Bool
reset_eof_state previous_eof = false
