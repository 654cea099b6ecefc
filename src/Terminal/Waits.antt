-- ===== src/Terminal/Waits.antt =====
-- What the two waiting loops of terminal.c promise.
use c_shell.Base.{
  ℕ, ◌+◌, ◌≡◌, refl, ◌∙◌, Bool, false, ◌||◌, List, [], ◌∷◌, Option, some, none, arith,
}
use c_shell.Terminal.{
  WaitReport, interrupted, failed, child, Marks, mark_finished, is_signaled, wait_loop, unmarked,
  wait_foreground_group, Alarm, no_alarm, arm, disarm, timeout_loop, wait_foreground_group_timeout,
}

-- No interruption comes with a fired alarm.
abbrev pub NoAlarm : List WaitReport → Type 0
NoAlarm [] = Unit
NoAlarm (interrupted fired ∷ rs) = (fired ≡ false) × NoAlarm rs
NoAlarm (failed ∷ rs) = NoAlarm rs
NoAlarm (child p s ∷ rs) = NoAlarm rs

abbrev pub code_of : Option (ℕ × Alarm) → Option ℕ
code_of none = none
code_of (some r) = some r.0

code_of-timeout_loop :
    (seconds : ℕ) (a : Alarm) (ms : Marks) (count : ℕ) (sig : Bool) (rs : List WaitReport)
    → NoAlarm rs
    → code_of (timeout_loop seconds a ms count sig rs) ≡ wait_loop ms count sig rs
unfolding timeout_loop wait_loop
code_of-timeout_loop seconds a ms count sig [] h = ground arith
code_of-timeout_loop seconds a ms count sig (interrupted fired ∷ rs) h =
    ground (arith, code_of-timeout_loop seconds a ms count sig rs h.1)
code_of-timeout_loop seconds a ms count sig (failed ∷ rs) h = refl
code_of-timeout_loop seconds a ms count sig (child p s ∷ rs) h = ground (
  arith,
  code_of-timeout_loop seconds a (mark_finished p ms).0 (count + (mark_finished p ms).1)
      (sig || is_signaled s) rs h,
  code_of-timeout_loop seconds a ms count (sig || is_signaled s) rs h,
)

-- As long as no alarm fires, `wait_foreground_group_timeout` returns what `wait_foreground_group`
-- returns on the same reports, and waits where that waits, whatever the timeout is.
pub timeout-eq-wait :
    (a : Alarm) (pids : List ℕ) (seconds : ℕ) (rs : List WaitReport)
    → NoAlarm rs
    → code_of (wait_foreground_group_timeout a pids seconds rs) ≡ wait_foreground_group pids rs
unfolding wait_foreground_group_timeout wait_foreground_group
timeout-eq-wait a pids seconds rs h =
    code_of-timeout_loop seconds (arm seconds a) (unmarked pids) 0 false rs h

abbrev Leaves : ℕ → Alarm → Option (ℕ × Alarm) → Type 0
Leaves seconds a none = Unit
Leaves seconds a (some r) = r.1 ≡ disarm seconds a

timeout_loop-Leaves :
    (seconds : ℕ) (a : Alarm) (ms : Marks) (count : ℕ) (sig : Bool) (rs : List WaitReport)
    → Leaves seconds a (timeout_loop seconds a ms count sig rs)
unfolding timeout_loop
timeout_loop-Leaves seconds a ms count sig [] = ground arith
timeout_loop-Leaves seconds a ms count sig (interrupted fired ∷ rs) =
    ground (arith, timeout_loop-Leaves seconds a ms count sig rs)
timeout_loop-Leaves seconds a ms count sig (failed ∷ rs) = refl
timeout_loop-Leaves seconds a ms count sig (child p s ∷ rs) = ground (
  arith,
  timeout_loop-Leaves seconds a (mark_finished p ms).0 (count + (mark_finished p ms).1)
      (sig || is_signaled s) rs,
  timeout_loop-Leaves seconds a ms count (sig || is_signaled s) rs,
)

-- On every way out, the timeout among them, `wait_foreground_group_timeout` leaves no alarm due and
-- SIGALRM to its old handler, if no alarm was due and the handler was the old one before.
timeout_leaves_no_alarm :
    (pids : List ℕ) (seconds : ℕ) (rs : List WaitReport) (code : ℕ) (a : Alarm)
    → wait_foreground_group_timeout no_alarm pids seconds rs ≡ some (code, a)
    → a ≡ no_alarm
unfolding wait_foreground_group_timeout
timeout_leaves_no_alarm pids seconds rs code a e =
    let left =
      rw e at (timeout_loop-Leaves seconds (arm seconds no_alarm) (unmarked pids) 0 false rs) in
    left ∙ ground arith
