-- ===== src/Ping/Wraps.antt =====
-- Job numbers that `exec_ping` of c-shell/src/ping.c does not tell apart.
use c_shell.Base.{ℕ, ◌%◌, ◌^◌, ◌≤◌, ◌≡◌, refl, ap, sym, ◌∙◌, ◌∷◌, Option, some, none, Bytes}
use c_shell.Jobs.{Table}
use c_shell.Jobs.Control.{ActivityJob, get_activities}
use c_shell.Numbers.{long_max, to_int}
use c_shell.Ping.{
  Target, Pinged, invalid_syntax, no_such_process, sent_job, sent_pid, find_activity, signal_job,
  exec_ping,
}
use c_shell.Ping.Targets.{Numeral, number, written, job_words, exec_ping-job}

-- What is signalled, whatever is printed.
pub signalled : Pinged → Option (Target × ℕ)
signalled invalid_syntax = none
signalled no_such_process = none
signalled (sent_job k s typed name) = some (k, s)
signalled (sent_pid k s typed pid) = some (k, s)

signalled-job :
    (typed : ℕ) (a b : Bytes) (o : Option ActivityJob)
    → signalled (signal_job typed a o) ≡ signalled (signal_job typed b o)
unfolding signalled
signalled-job typed a b none = refl
signalled-job typed a b (some j) = refl

to_int-wraps : (m n : ℕ) → m % 2 ^ 32 ≡ n % 2 ^ 32 → to_int m ≡ to_int n
unfolding to_int
to_int-wraps m n h = rw h refl

-- Job numbers are told apart only modulo 2 ^ 32: two that are equal so far signal the same job, though
-- both are `long`s that are read without loss.
pub ping_wraps :
    (t : Table) (m n signal : Numeral)
    → 1 ≤ number m
    → number m ≤ long_max
    → 1 ≤ number n
    → number n ≤ long_max
    → number signal ≤ long_max
    → number m % 2 ^ 32 ≡ number n % 2 ^ 32
    → signalled (exec_ping t (job_words t m signal))
      ≡ signalled (exec_ping t (job_words t n signal))
ping_wraps t m n signal m_low m_high n_low n_high sig h =
    let acts = get_activities t 100 in
    ap signalled (exec_ping-job t m signal m_low m_high sig)
    ∙ ap (λ i. signalled (signal_job (number signal) (b'%' ∷ written m) (find_activity i acts)))
        (to_int-wraps (number m) (number n) h)
    ∙ signalled-job (number signal) (b'%' ∷ written m) (b'%' ∷ written n)
        (find_activity (to_int (number n)) acts)
    ∙ ap signalled (sym (exec_ping-job t n signal n_low n_high sig))
