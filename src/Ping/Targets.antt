-- ===== src/Ping/Targets.antt =====
-- Which job or process `exec_ping` of c-shell/src/ping.c signals.
use c_shell.Base.{
  ℕ, zero, suc, ◌%◌, ◌^◌, ◌≤◌, ◌<◌, ◌≡◌, refl, ap, ◌∙◌, Bool, true, false, not, ◌&&◌, ◌||◌, List,
  [], ◌∷◌, map, Option, some, none, length, ◌==◌, if◌then◌else◌, Bytes, arith,
}
use c_shell.Lexer.{Token, word}
use c_shell.Jobs.{Proc, BackgroundJob, Table, max_procs}
use c_shell.Jobs.Control.{ActivityJob, activity_job, live_procs, activities_loop, get_activities}
use c_shell.Jobs.Invariant.{All, IsJob, IsTable}
use c_shell.Jobs.Lookup.{find_job}
use c_shell.Numbers.{pos, long_max, to_long, strtol, whole, whole_positive, to_int}
use c_shell.Numbers.Decimal.{value, AreDigits, digit, strtol-digits}
use c_shell.Ping.{
  process, group, no_such_process, sent_job, sent_pid, parse_non_negative, find_activity, among,
  found_among, signal_job, signal_pid, exec_ping,
}

-- A process with this pid has not exited.
pub is_live : ℕ → List Proc → Bool
is_live pid [] = false
is_live pid (p ∷ ps) = (not p.exited && p.pid == pid) || is_live pid ps

pub some_live : ℕ → List BackgroundJob → Bool
some_live pid [] = false
some_live pid (j ∷ js) = is_live pid j.procs || some_live pid js

abbrev pub activity_of : Option BackgroundJob → Option ActivityJob
activity_of none = none
activity_of (some j) = some (activity_job j)

pub find_activity-activities :
    (next room n : ℕ) (js : List BackgroundJob)
    → All (IsJob next) js
    → length js ≤ room
    → find_activity (pos n) (activities_loop room js) ≡ activity_of (find_job n js)
unfolding find_activity activities_loop find_job
find_activity-activities next room n [] ok h = refl
find_activity-activities next zero n (j ∷ js) ok h = absurd (omega arith)
find_activity-activities next (suc room) n (j ∷ js) ok h =
    ground (arith, ok.0.active, find_activity-activities next room n js ok.1)

among-live_procs :
    (room pid : ℕ) (ps : List Proc)
    → length ps ≤ room
    → among (pos pid) (live_procs room ps) ≡ is_live pid ps
unfolding among live_procs is_live
among-live_procs room pid [] h = refl
among-live_procs zero pid (p ∷ ps) h = absurd (omega arith)
among-live_procs (suc room) pid (p ∷ ps) h =
    ground (arith, among-live_procs room pid ps, among-live_procs (suc room) pid ps)

found_among-activities :
    (next room pid : ℕ) (js : List BackgroundJob)
    → All (IsJob next) js
    → length js ≤ room
    → found_among (pos pid) (activities_loop room js) ≡ some_live pid js
unfolding found_among activities_loop some_live
found_among-activities next room pid [] ok h = refl
found_among-activities next zero pid (j ∷ js) ok h = absurd (omega arith)
found_among-activities next (suc room) pid (j ∷ js) ok h = ground (
  arith,
  ok.0.active,
  among-live_procs max_procs pid j.procs ok.0.few_procs,
  found_among-activities next room pid js ok.1,
)

abbrev pub text : Bytes → Token
text b = record { kind = word; value = b }

pub to_int-small : (n : ℕ) → n < 2 ^ 31 → to_int n ≡ pos n
unfolding to_int
to_int-small n h = ground (arith, h)

-- A number written with decimal digits.
pub record Numeral : Type 0 where
  pub first : ℕ
  pub others : List ℕ
  pub are_digits : AreDigits (first ∷ others)

abbrev pub number : Numeral → ℕ
number n = value 0 (n.first ∷ n.others)

abbrev pub written : Numeral → Bytes
written n = map digit (n.first ∷ n.others)

to_long-small : (n : ℕ) → n ≤ long_max → to_long n ≡ pos n
to_long-small n h = ground (arith, h)

strtol-written : (n : Numeral) → number n ≤ long_max → strtol (written n) ≡ (pos (number n), [])
strtol-written n h =
    strtol-digits n.first n.others n.are_digits ∙ ap (λ z. (z, [])) (to_long-small (number n) h)

positive-pos : (n : ℕ) → 1 ≤ n → whole_positive (pos n, []) ≡ some n
positive-pos zero h = absurd (omega arith)
positive-pos (suc n) h = refl

whole_positive-written :
    (n : Numeral)
    → 1 ≤ number n
    → number n ≤ long_max
    → whole_positive (strtol (written n)) ≡ some (number n)
whole_positive-written n low high =
    ap whole_positive (strtol-written n high) ∙ positive-pos (number n) low

parse_non_negative-written :
    (n : Numeral) → number n ≤ long_max → parse_non_negative (written n) ≡ some (number n)
unfolding parse_non_negative
parse_non_negative-written n h = ap whole (strtol-written n h)

pid_found :
    (typed n : ℕ) (b : Bool)
    → signal_pid typed n (pos n) b
      ≡ (if b then sent_pid (process n) (typed % 64) typed n else no_such_process)
pid_found typed n true = refl
pid_found typed n false = refl

signal_found :
    (typed : ℕ) (name : Bytes) (o : Option BackgroundJob)
    → signal_job typed name (activity_of o)
      ≡ elim o [ none ↦ no_such_process | some j ↦ sent_job (group j.pgid) (typed % 64) typed name ]
signal_found typed name none = refl
signal_found typed name (some j) = refl

module _ (t : Table) (target signal : Numeral) where
  -- The command with a job number, and with a pid.
  abbrev pub job_words : List Token
  job_words = text (b'%' ∷ written target) ∷ text (written signal) ∷ []

  abbrev pub pid_words : List Token
  pid_words = text (written target) ∷ text (written signal) ∷ []

  pub exec_ping-job :
      1 ≤ number target
      → number target ≤ long_max
      → number signal ≤ long_max
      → exec_ping t job_words
        ≡ signal_job
            (number signal)
            (b'%' ∷ written target)
            (find_activity (to_int (number target)) (get_activities t 100))
  unfolding exec_ping
  exec_ping-job low high sig =
      rw (parse_non_negative-written signal sig, whole_positive-written target low high) refl

  exec_ping-pid :
      1 ≤ number target
      → number target ≤ long_max
      → number signal ≤ long_max
      → exec_ping t pid_words
        ≡ signal_pid
            (number signal)
            (number target)
            (to_int (number target))
            (found_among (to_int (number target)) (get_activities t 100))
  unfolding exec_ping
  exec_ping-pid low high sig =
      let no_job : (digit target.first == b'%') ≡ false = ground arith in
      rw (parse_non_negative-written signal sig, no_job, whole_positive-written target low high)
        refl

  ping_job_lem :
      IsTable t
      → 1 ≤ number target
      → number target < 2 ^ 31
      → number signal ≤ long_max
      → exec_ping t job_words ≡ elim (find_job (number target) t.jobs) [
        | none ↦ no_such_process
        | some j ↦
            sent_job (group j.pgid) (number signal % 64) (number signal) (b'%' ∷ written target)
      ]
  unfolding get_activities
  ping_job_lem ok low high sig =
      let n = number target in
      let found = find_activity-activities t.next_job_number 100 n t.jobs ok.jobs_ok ok.few_jobs in
      let below : n ≤ long_max = omega (arith, high) in
      exec_ping-job low below sig
      ∙ (rw (to_int-small n high, found)
          (signal_found (number signal) (b'%' ∷ written target) (find_job n t.jobs)))

  ping_pid_lem :
      IsTable t
      → 1 ≤ number target
      → number target < 2 ^ 31
      → number signal ≤ long_max
      → exec_ping t pid_words ≡ (
          if some_live (number target) t.jobs
          then sent_pid
              (process (number target))
              (number signal % 64)
              (number signal)
              (number target)
          else no_such_process)
  unfolding get_activities
  ping_pid_lem ok low high sig =
      let n = number target in
      let found = found_among-activities t.next_job_number 100 n t.jobs ok.jobs_ok ok.few_jobs in
      let below : n ≤ long_max = omega (arith, high) in
      exec_ping-pid low below sig
      ∙ (rw (to_int-small n high, found) (pid_found (number signal) n (some_live n t.jobs)))

  -- In a sound table `ping %n s` sends signal s modulo 64 to the group of the job with number n, if
  -- there is one, and `ping n s` sends it to the process with pid n exactly if the table has one that
  -- has not exited; both print s as it was typed, and else there is no such process. Here n is from 1
  -- to below 2 ^ 31 and s is at most the largest `long`.
  pub exec_ping_lem :
      IsTable t
      → 1 ≤ number target
      → number target < 2 ^ 31
      → number signal ≤ long_max
      → (exec_ping t job_words ≡ elim (find_job (number target) t.jobs) [
        | none ↦ no_such_process
        | some j ↦
            sent_job (group j.pgid) (number signal % 64) (number signal) (b'%' ∷ written target)
      ])
        × (exec_ping t pid_words ≡ (
            if some_live (number target) t.jobs
            then sent_pid
                (process (number target))
                (number signal % 64)
                (number signal)
                (number target)
            else no_such_process))
  exec_ping_lem ok low high sig = (ping_job_lem ok low high sig, ping_pid_lem ok low high sig)
