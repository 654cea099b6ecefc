-- ===== src/Tests/Resume.antt =====
-- `ping` and `resume`.
use c_shell.Base.{
  ◌%◌, ◌≡◌, refl, Bool, true, false, List, [], ◌∷◌, none, some, if◌then◌else◌, codes, str_eq, arith,
}
use c_shell.Lexer.{Token}
use c_shell.Jobs.{running, BackgroundJob, Table, empty_table, exited, register_background_job}
use c_shell.Jobs.Control.{activity_job, live_procs}
use c_shell.Jobs.Invariant.{IsTable}
use c_shell.Jobs.Steps
use c_shell.Jobs.Steps.{Reach, Reach-IsTable}
use c_shell.Jobs.Lookup.{find_job}
use c_shell.Terminal.{child, no_alarm, wait_foreground_group_timeout, timeout_loop, mark_finished}
use c_shell.Numbers.{pos, strtol, is_digit, is_blank, to_int}
use c_shell.Numbers.Decimal.{AreDigits, value}
use c_shell.Ping.{process, group, no_such_process, sent_job, sent_pid, exec_ping}
use c_shell.Ping.Targets.{
  Numeral, number, written, text, some_live, job_words, pid_words, exec_ping_lem,
}
use c_shell.Resume.{Request, parse_resume, Resumed, sigcont, pids, no_procs, exec_resume}
use c_shell.Resume.Jobs.{left_of, resume_fg_lem}

abbrev one_job : Table
one_job = (register_background_job empty_table 30 ((30, codes "sleep") ∷ []) (codes "sleep 9")).0

one_job-IsTable : IsTable one_job
one_job-IsTable =
    Reach-IsTable (
      Reach.step Reach.start
        (Steps.Step.background 30 ((30, codes "sleep") ∷ []) (codes "sleep 9")))

one-AreDigits : AreDigits (1 ∷ [])
unfolding AreDigits
one-AreDigits = (omega arith, tt)

abbrev one : Numeral
one = record { first = 1; others = []; are_digits = one-AreDigits }

nine-AreDigits : AreDigits (9 ∷ [])
unfolding AreDigits
nine-AreDigits = (omega arith, tt)

abbrev nine : Numeral
nine = record { first = 9; others = []; are_digits = nine-AreDigits }

many-AreDigits : AreDigits (4 ∷ 2 ∷ 9 ∷ 4 ∷ 9 ∷ 6 ∷ 7 ∷ 2 ∷ 9 ∷ 7 ∷ [])
unfolding AreDigits
many-AreDigits = (
  omega arith,
  (
    omega arith,
    (
      omega arith,
      (
        omega arith,
        (
          omega arith,
          (omega arith, (omega arith, (omega arith, (omega arith, (omega arith, tt))))),
        ),
      ),
    ),
  ),
)

-- 2 ^ 32 + 1
abbrev many : Numeral
many = record {
  first = 4;
  others = 2 ∷ 9 ∷ 4 ∷ 9 ∷ 6 ∷ 7 ∷ 2 ∷ 9 ∷ 7 ∷ [];
  are_digits = many-AreDigits;
}

one_is : number one ≡ 1
unfolding value
one_is = refl

nine_is : number nine ≡ 9
unfolding value
nine_is = refl

many_is : number many ≡ 4294967297
unfolding value
many_is = refl

exec_ping_lem_example :
    (exec_ping one_job (job_words one_job one nine) ≡ elim (find_job (number one) one_job.jobs) [
      | none ↦ no_such_process
      | some j ↦ sent_job (group j.pgid) (number nine % 64) (number nine) (b'%' ∷ written one)
    ])
    × (exec_ping one_job (pid_words one_job one nine) ≡ (
        if some_live (number one) one_job.jobs
        then sent_pid (process (number one)) (number nine % 64) (number nine) (number one)
        else no_such_process))
exec_ping_lem_example =
    exec_ping_lem one_job one nine one_job-IsTable (omega (arith, one_is)) (omega (arith, one_is))
      (omega (arith, nine_is))

abbrev fg_words : List Token
fg_words = text (codes "%1") ∷ text (codes "fg") ∷ []

abbrev bg_words : List Token
bg_words = text (codes "%1") ∷ text (codes "bg") ∷ []

abbrev sleep_job : BackgroundJob
sleep_job = record {
  job_number = 1;
  pgid = 30;
  procs = record { pid = 30; name = codes "sleep"; state = running; exited = false } ∷ [];
  remaining = 1;
  active = true;
  cmdline = codes "sleep 9";
}

sleep_found : find_job 1 one_job.jobs ≡ some sleep_job
unfolding find_job register_background_job
sleep_found = refl

sleep_live : no_procs (activity_job sleep_job) ≡ false
unfolding live_procs
sleep_live = refl

abbrev request : Bool → Request
request is_fg = record { number = 1; is_fg = is_fg; timeout_seconds = pos 0 }

fg_parsed : parse_resume fg_words ≡ some (request true)
unfolding parse_resume str_eq strtol is_digit is_blank to_int
fg_parsed = refl

bg_parsed : parse_resume bg_words ≡ some (request false)
unfolding parse_resume str_eq strtol is_digit is_blank to_int
bg_parsed = refl

sleep_ends :
    wait_foreground_group_timeout no_alarm
      (pids (activity_job sleep_job).procs)
      0
      (child 30 exited ∷ [])
    ≡ some (0, no_alarm)
unfolding wait_foreground_group_timeout timeout_loop mark_finished live_procs
sleep_ends = refl

resume_fg_lem_example :
    (r : Resumed) × (exec_resume no_alarm one_job [] (child 30 exited ∷ []) fg_words ≡ some r)
    × (r.code ≡ 0)
    × (find_job 1 r.table.jobs ≡ left_of 0 sleep_job)
    × (r.signals ≡ (30, sigcont) ∷ [])
resume_fg_lem_example =
    resume_fg_lem no_alarm one_job (child 30 exited ∷ []) fg_words (request true) sleep_job 0 1
      no_alarm one_job-IsTable fg_parsed refl (omega arith) sleep_found sleep_live sleep_ends
