-- ===== src/Resume.antt =====
-- The `resume` command: c-shell/src/resume.c.
pub mod Outcome
pub mod Jobs
use c_shell.Base.{
  ℕ, zero, suc, Bool, true, false, not, List, [], ◌∷◌, ◌++◌, Option, some, none, take, ◌==◌,
  if◌then◌else◌, Bytes, str_eq, codes,
}
use c_shell.Lexer.{Token}
use c_shell.Jobs.{Table, WaitStatus, sigchld_handler}
use c_shell.Jobs.Control.{
  ActivityProc, ActivityJob, get_activities, mark_job_running, mark_job_stopped,
  remove_job_by_number,
}
use c_shell.Terminal.{WaitReport, Alarm, wait_foreground_group_timeout}
use c_shell.Numbers.{ℤ, strtol, whole_positive, to_int, same}
use c_shell.Ping.{find_activity, job_number}

-- `job_number`, `is_fg` and `timeout_seconds`.
pub record Request : Type 0 where
  pub number : ℕ
  pub is_fg : Bool
  pub timeout_seconds : ℤ

-- `%` and a number.
abbrev pub parse_job : Bytes → Option ℕ
parse_job [] = none
parse_job (c ∷ cs) = if c == b'%' then job_number cs else none

-- `fg` or `bg`.
abbrev pub parse_mode : Bytes → Option Bool
parse_mode v =
    if str_eq v (codes "fg") then some true else if str_eq v (codes "bg") then some false else none

abbrev pub with_timeout : ℕ → Option ℕ → Option Request
with_timeout n none = none
with_timeout n (some t) = some record { number = n; is_fg = true; timeout_seconds = to_int t }

-- The tokens behind the mode: none, or `--timeout` and a number, which only `fg` takes.
unfoldable pub parse_timeout : ℕ → Bool → List Token → Option Request
parse_timeout n is_fg [] = some record { number = n; is_fg = is_fg; timeout_seconds = ℤ.pos 0 }
parse_timeout n is_fg (o ∷ []) = none
parse_timeout n is_fg (o ∷ v ∷ []) =
    if not is_fg
    then none
    else if str_eq o.value (codes "--timeout")
    then with_timeout n (whole_positive (strtol v.value))
    else none
parse_timeout n is_fg (o ∷ v ∷ more ∷ rest) = none

abbrev pub with_mode : ℕ → List Token → Option Bool → Option Request
with_mode n ts none = none
with_mode n ts (some is_fg) = parse_timeout n is_fg ts

abbrev pub with_job : Token → List Token → Option ℕ → Option Request
with_job m ts none = none
with_job m ts (some n) = with_mode n ts (parse_mode m.value)

-- The tokens behind `resume`; `none` is the invalid syntax.
unfoldable pub parse_resume : List Token → Option Request
unfolding parse_timeout
parse_resume [] = none
parse_resume (j ∷ []) = none
parse_resume (j ∷ m ∷ ts) = with_job m ts (parse_job j.value)

-- What is printed.
pub data Line : Type 0 where
  invalid_syntax no_such_job already_finished job_timed_out newline : Line
  running_line stopped_line : ℕ → Bytes → Line
  command_line : Bytes → Line

-- The signals that are sent to the group of the job.
pub data Signal : Type 0 where
  sigcont sigterm : Signal

pub record Resumed : Type 0 where
  pub code : ℕ
  pub table : Table
  pub lines : List Line
  pub signals : List (ℕ × Signal)

abbrev pub refuse : Table → Line → Resumed
refuse t line = record { code = 1; table = t; lines = line ∷ []; signals = [] }

abbrev pub pids : List ActivityProc → List ℕ
pids [] = []
pids (p ∷ ps) = p.pid ∷ pids ps

abbrev pub first_proc_name : List ActivityProc → Bytes
first_proc_name [] = []
first_proc_name (p ∷ ps) = p.name

abbrev pub shown : Bytes → List ActivityProc → Bytes
shown [] procs = take 255 (first_proc_name procs)
shown (c ∷ cs) procs = take 255 (c ∷ cs)

-- A timeout is only asked whether it is above 0.
abbrev pub seconds : ℤ → ℕ
seconds (ℤ.pos n) = n
seconds (ℤ.negsuc n) = 0

-- Behind the waiting loop, at its result.
unfoldable pub after_wait : Table → ActivityJob → Bytes → ℕ → Resumed
after_wait t job cmdline result =
    if result == 3
    then record {
      code = 0;
      table = (remove_job_by_number t job.job_number).1;
      lines = command_line cmdline ∷ job_timed_out ∷ [];
      signals = (job.pgid, sigcont) ∷ (job.pgid, sigterm) ∷ [];
    }
    else if result == 1
    then record {
      code = 0;
      table = (mark_job_stopped t job.job_number).1;
      lines = command_line cmdline ∷ newline ∷ stopped_line job.job_number cmdline ∷ [];
      signals = (job.pgid, sigcont) ∷ [];
    }
    else record {
      code = 0;
      table = (remove_job_by_number t job.job_number).1;
      lines = command_line cmdline ∷ (if result == 2 then newline ∷ [] else []);
      signals = (job.pgid, sigcont) ∷ [];
    }

abbrev pub waited : Table → ActivityJob → Bytes → Option (ℕ × Alarm) → Option Resumed
waited t job cmdline none = none
waited t job cmdline (some r) = some (after_wait t job cmdline r.0)

-- A job with a process that had not exited: it goes on, in the background or in the foreground.
unfoldable pub continue_job :
    Alarm → Request → Table → ActivityJob → Bytes → List WaitReport → Option Resumed
unfolding after_wait
continue_job a request t job cmdline reports =
    let t' = (mark_job_running t job.job_number).1 in
    if not request.is_fg
    then some record {
      code = 0;
      table = t';
      lines = running_line job.job_number cmdline ∷ [];
      signals = (job.pgid, sigcont) ∷ [];
    }
    else waited t' job cmdline
        (wait_foreground_group_timeout a (pids job.procs) (seconds request.timeout_seconds) reports)

abbrev pub no_procs : ActivityJob → Bool
no_procs job = elim job.procs [ [] ↦ true | ◌∷◌ p ps ↦ false ]

-- From the point where SIGCHLD is blocked. `t` is the table by then, `job` what was looked up before.
abbrev pub resume_job : Alarm → Request → Table → List WaitReport → ActivityJob → Option Resumed
resume_job a request t reports job =
    if no_procs job
    then some record {
      code = 0;
      table = (remove_job_by_number t job.job_number).1;
      lines = already_finished ∷ [];
      signals = [];
    }
    else continue_job a request t job (shown job.cmdline job.procs) reports

abbrev pub look_up_job :
    Alarm
    → Table
    → List (ℕ × WaitStatus)
    → List WaitReport
    → Request
    → Option ActivityJob
    → Option Resumed
look_up_job a t events reports request none = some (refuse (sigchld_handler t events) no_such_job)
look_up_job a t events reports request (some job) =
    resume_job a request (sigchld_handler t events) reports job

abbrev pub resume_request :
    Alarm → Table → List (ℕ × WaitStatus) → List WaitReport → Option Request → Option Resumed
resume_request a t events reports none = some (refuse (sigchld_handler t events) invalid_syntax)
resume_request a t events reports (some request) =
    look_up_job a t events reports request
      (find_activity (to_int request.number) (get_activities t 100))

-- `events` are the children that the handler reports behind the look-up and before SIGCHLD is
-- blocked (or before the return), and `reports` what the waiting loop gets; `none` means that it still
-- waits.
unfoldable pub exec_resume :
    Alarm → Table → List (ℕ × WaitStatus) → List WaitReport → List Token → Option Resumed
unfolding parse_resume
exec_resume a t events reports ts = resume_request a t events reports (parse_resume ts)
