-- ===== src/Snoop/Trace.antt =====
-- Following a process: `run_syscall_trace`, `snoop_attach`, `snoop_command` and `exec_snoop` of
-- c-shell/src/snoop.c.
use c_shell.Base.{
  ℕ, Bool, true, false, not, ◌&&◌, List, [], ◌∷◌, ◌++◌, map, Option, some, none, take, ◌==◌,
  if◌then◌else◌, Bytes, str_eq, codes,
}
use c_shell.Lexer.{Token}
use c_shell.Numbers.{ℤ, pos, negsuc, to_int, is_digit, strtol}
use c_shell.Snoop.{Stats, reset_stats, record_syscall, Timespec, timespec_diff, print_summary}
use c_shell.Snoop.Names.{Name}

-- What one round of the loop gets: a `ptrace` or a `waitpid` that fails, an end by exit or by a signal,
-- a status that is neither an end nor a stop, or a stop by a signal, with the number of the system call
-- where PTRACE_GETREGS reads the registers.
pub data Round : Type 0 where
  failed not_stopped : Round
  ended : Timespec → Round
  stopped : ℕ → Option ℤ → Timespec → Round

-- The variables of the loop, with the signals that it has handed to `ptrace`.
pub record Tracer : Type 0 where
  pub stats : Stats
  pub expecting_entry : Bool
  pub current_syscall_num : ℤ
  pub entry_time : Timespec
  pub resume_sig : ℕ
  pub delivered : List ℕ

abbrev pub sigtrap : ℕ
sigtrap = 5

abbrev pub record_current : Timespec → Tracer → Tracer
record_current now t = record t {
  stats = record_syscall t.current_syscall_num (timespec_diff t.entry_time now) t.stats;
}

-- At the entry of a call; registers that are not read leave the call before.
abbrev pub enter_call : Option ℤ → Timespec → Tracer → Tracer
enter_call none now t = record t { expecting_entry = false }
enter_call (some num) now t = record t {
  expecting_entry = false;
  current_syscall_num = num;
  entry_time = now;
}

abbrev pub on_trap : Option ℤ → Timespec → Tracer → Tracer
on_trap num now t =
    if t.expecting_entry
    then enter_call num now t
    else record (record_current now t) { expecting_entry = true }

abbrev pub on_stop : ℕ → Option ℤ → Timespec → Tracer → Tracer
on_stop sig num now t = if sig == sigtrap then on_trap num now t else record t { resume_sig = sig }

abbrev pub on_end : Timespec → Tracer → Tracer
on_end now t = if t.expecting_entry then t else record_current now t

-- `ptrace(PTRACE_SYSCALL)` with `resume_sig`, which is 0 afterwards.
abbrev pub resumed : Tracer → Tracer
resumed t = record t { delivered = t.delivered ++ t.resume_sig ∷ []; resume_sig = 0 }

-- Whether the loop has ended is the second part: on the rounds given it may still wait.
unfoldable pub trace_loop : Tracer → List Round → Tracer × Bool
unfolding record_syscall
trace_loop t [] = (t, false)
trace_loop t (failed ∷ rs) = (t, true)
trace_loop t (not_stopped ∷ rs) = trace_loop (resumed t) rs
trace_loop t (ended now ∷ rs) = (on_end now (resumed t), true)
trace_loop t (stopped sig num now ∷ rs) = trace_loop (on_stop sig num now (resumed t)) rs

abbrev pub start_tracer : Stats → Tracer
start_tracer stats = record {
  stats = stats;
  expecting_entry = true;
  current_syscall_num = negsuc 0;
  entry_time = record { tv_sec = 0; tv_nsec = 0 };
  resume_sig = 0;
  delivered = [];
}

unfoldable pub run_syscall_trace : List Round → Tracer × Bool
unfolding trace_loop reset_stats
run_syscall_trace rs = trace_loop (start_tracer reset_stats) rs

-- How `snoop` ends, or that it still follows the process.
pub data Snooped : Type 0 where
  invalid_syntax no_such_process could_not_attach internal_error command_not_found : Snooped
  following : Snooped
  summary : List (Name × ℕ × ℕ) → Snooped

abbrev pub after_trace : Tracer × Bool → Snooped
after_trace (t, false) = following
after_trace (t, true) = summary (print_summary t.stats)

-- `PTRACE_ATTACH`: it works, fails with ESRCH, or fails otherwise.
pub data Attached : Type 0 where
  attached gone refused : Attached

-- What the system answers about a process, and about a command that is started.
pub record Process : Type 0 where
  pub kill_ok : Bool
  pub attach : Attached
  pub wait_ok : Bool
  pub rounds : List Round

pub record Started : Type 0 where
  pub pipe_ok : Bool
  pub fork_ok : Bool
  pub stopped_first : Option Bool
  pub exec_failed : Bool
  pub rounds : List Round

unfoldable pub snoop_attach : Process → Snooped
unfolding run_syscall_trace print_summary
snoop_attach p = if not p.kill_ok then no_such_process else elim p.attach [
  | gone ↦ no_such_process
  | refused ↦ could_not_attach
  | attached ↦ if p.wait_ok then after_trace (run_syscall_trace p.rounds) else could_not_attach
]

-- The parent; the child asks to be traced and calls `execvp`, and writes into the pipe if that fails.
unfoldable pub snoop_command : Started → Snooped
unfolding run_syscall_trace print_summary
snoop_command c =
    if not c.pipe_ok
    then internal_error
    else if not c.fork_ok
    then internal_error
    else elim c.stopped_first [
      | none ↦ internal_error
      | some stop ↦
          if c.exec_failed
          then command_not_found
          else if stop
          then after_trace (run_syscall_trace c.rounds)
          else command_not_found
    ]

unfoldable pub digits_only : Bytes → Bool
unfolding is_digit
digits_only [] = true
digits_only (c ∷ cs) = is_digit c && digits_only cs

unfoldable pub is_all_digits : Bytes → Bool
unfolding digits_only
is_all_digits [] = false
is_all_digits (c ∷ cs) = digits_only (c ∷ cs)

-- `(pid_t)`
abbrev pub pid_of : ℤ → ℤ
pid_of (pos n) = to_int n
pid_of (negsuc n) = negsuc n

-- `MAX_SNOOP_ARGS - 1`
abbrev pub max_args : ℕ
max_args = 127

-- The processes by their ids, and the commands by their arguments.
pub record World : Type 0 where
  pub process : ℤ → Process
  pub command : List Bytes → Started

-- The tokens behind `-p`.
unfoldable pub snoop_pid : World → List Token → Snooped
unfolding is_all_digits snoop_attach
snoop_pid w [] = invalid_syntax
snoop_pid w (t ∷ []) =
    if is_all_digits t.value
    then snoop_attach (w.process (pid_of (strtol t.value).0))
    else invalid_syntax
snoop_pid w (t ∷ u ∷ us) = invalid_syntax

-- The tokens behind `snoop`.
unfoldable pub exec_snoop : World → List Token → Snooped
unfolding snoop_pid snoop_command
exec_snoop w [] = invalid_syntax
exec_snoop w (t ∷ ts) =
    if str_eq t.value (codes "-p")
    then snoop_pid w ts
    else snoop_command (w.command (take max_args (map (λ u. u.value) (t ∷ ts))))
