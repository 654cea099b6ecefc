-- ===== src/Ping.antt =====
-- The `ping` command: c-shell/src/ping.c.
pub mod Targets
pub mod Wraps
use c_shell.Base.{
  ℕ, zero, suc, ◌%◌, Bool, true, false, List, [], ◌∷◌, Option, some, none, ◌==◌, if◌then◌else◌,
  Bytes,
}
use c_shell.Lexer.{Token}
use c_shell.Jobs.{Table}
use c_shell.Jobs.Control.{ActivityProc, ActivityJob, get_activities}
use c_shell.Numbers.{ℤ, strtol, whole, whole_positive, to_int, same}

-- The process or the group that `kill` is called for.
pub data Target : Type 0 where
  process group : ℕ → Target

-- The message printed, and behind a signal that is sent its target, its number and the two texts of
-- the message.
pub data Pinged : Type 0 where
  invalid_syntax no_such_process : Pinged
  sent_job : Target → ℕ → ℕ → Bytes → Pinged
  sent_pid : Target → ℕ → ℕ → ℕ → Pinged

abbrev pub ping_code : Pinged → ℕ
ping_code invalid_syntax = 1
ping_code no_such_process = 1
ping_code (sent_job k s typed name) = 0
ping_code (sent_pid k s typed pid) = 0

-- A NULL is not an argument here: each token has its text.
unfoldable pub parse_non_negative : Bytes → Option ℕ
unfolding strtol
parse_non_negative [] = none
parse_non_negative (c ∷ cs) = whole (strtol (c ∷ cs))

-- The first job with this number.
unfoldable pub find_activity : ℤ → List ActivityJob → Option ActivityJob
find_activity n [] = none
find_activity n (j ∷ js) = if same j.job_number n then some j else find_activity n js

unfoldable pub among : ℤ → List ActivityProc → Bool
among n [] = false
among n (p ∷ ps) = if same p.pid n then true else among n ps

-- The loops that set `found`.
unfoldable pub found_among : ℤ → List ActivityJob → Bool
unfolding among
found_among n [] = false
found_among n (j ∷ js) = if among n j.procs then true else found_among n js

abbrev pub signal_job : ℕ → Bytes → Option ActivityJob → Pinged
signal_job typed name none = no_such_process
signal_job typed name (some j) = sent_job (group j.pgid) (typed % 64) typed name

-- The number behind `%`.
abbrev pub job_number : Bytes → Option ℕ
job_number [] = none
job_number (c ∷ cs) = whole_positive (strtol (c ∷ cs))

abbrev pub ping_job : Table → ℕ → Bytes → Option ℕ → Pinged
ping_job t typed name none = invalid_syntax
ping_job t typed name (some n) =
    signal_job typed name (find_activity (to_int n) (get_activities t 100))

-- `kill((pid_t)pid_val, actual_signal)` for the process that was found; no process has a pid below 0.
abbrev pub signal_pid : ℕ → ℕ → ℤ → Bool → Pinged
signal_pid typed pid target false = no_such_process
signal_pid typed pid (ℤ.pos m) true = sent_pid (process m) (typed % 64) typed pid
signal_pid typed pid (ℤ.negsuc m) true = no_such_process

abbrev pub ping_pid : Table → ℕ → Option ℕ → Pinged
ping_pid t typed none = invalid_syntax
ping_pid t typed (some n) =
    signal_pid typed n (to_int n) (found_among (to_int n) (get_activities t 100))

abbrev pub ping_target : Table → ℕ → Bytes → Pinged
ping_target t typed [] = ping_pid t typed (whole_positive (strtol []))
ping_target t typed (c ∷ cs) =
    if c == b'%'
    then ping_job t typed (c ∷ cs) (job_number cs)
    else ping_pid t typed (whole_positive (strtol (c ∷ cs)))

abbrev pub ping_signal : Table → Bytes → Option ℕ → Pinged
ping_signal t target none = invalid_syntax
ping_signal t target (some typed) = ping_target t typed target

-- The tokens behind `ping`.
unfoldable pub exec_ping : Table → List Token → Pinged
unfolding parse_non_negative find_activity found_among get_activities to_int strtol
exec_ping t [] = invalid_syntax
exec_ping t (target ∷ []) = invalid_syntax
exec_ping t (target ∷ sig ∷ []) = ping_signal t target.value (parse_non_negative sig.value)
exec_ping t (target ∷ sig ∷ more ∷ rest) = invalid_syntax
