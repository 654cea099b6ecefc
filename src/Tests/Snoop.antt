-- ===== src/Tests/Snoop.antt =====
-- `snoop` on a short run.
use c_shell.Base.{ℕ, ◌≡◌, refl, true, false, List, [], ◌∷◌, map, some, none, codes, str_eq, arith}
use mathlib.Core.List.{Perm}
use c_shell.Ping.Targets.{text}
use c_shell.Numbers.{pos, strtol, to_int}
use c_shell.Sorting.{IsSorted}
use c_shell.Snoop.{SyscallStat, Timespec, print_summary}
use c_shell.Snoop.Names.{known, syscall_name}
use c_shell.Snoop.Trace.{
  Round, ended, stopped, World, attached, run_syscall_trace, summary, exec_snoop,
}
use c_shell.Snoop.Counts.{tally, seen, seen-run_syscall_trace}
use c_shell.Snoop.Calls.{calls, AllRead}
use c_shell.Snoop.Ranking.{ranked, AllSmall, called, print_summary-ranked}

abbrev at : ℕ → Timespec
at n = record { tv_sec = 1; tv_nsec = n }

abbrev trap : ℕ → ℕ → Round
trap num now = stopped 5 (some (pos num)) (at now)

-- getpid, two writes with a SIGUSR1 between them, and exit_group, in which the process ends.
abbrev run : List Round
run =
    trap 39 0
    ∷ trap 39 10
    ∷ trap 1 20
    ∷ stopped 10 (some (pos 1)) (at 25)
    ∷ trap 1 30
    ∷ trap 1 40
    ∷ trap 1 45
    ∷ trap 231 50
    ∷ ended (at 60)
    ∷ []

abbrev world : World
world = record {
  process = λ pid. record { kill_ok = true; attach = attached; wait_ok = true; rounds = run };
  command = λ argv. record {
    pipe_ok = true;
    fork_ok = true;
    stopped_first = some true;
    exec_failed = false;
    rounds = run;
  };
}

snoop_runs :
    exec_snoop world (text (codes "-p") ∷ text (codes "42") ∷ [])
    ≡ summary (
        (known (codes "write"), 2, 15)
        ∷ (known (codes "getpid"), 1, 10)
        ∷ (known (codes "exit_group"), 1, 10)
        ∷ [])
unfolding exec_snoop str_eq strtol to_int syscall_name
snoop_runs = refl

run-AllRead : AllRead run
unfolding AllRead
run-AllRead = tt

seen-run_syscall_trace_example :
    seen 1 (run_syscall_trace run).0.stats.stats ≡ tally 1 none (calls none run)
seen-run_syscall_trace_example = seen-run_syscall_trace run 1 run-AllRead (omega arith)

run-AllSmall : AllSmall (called (run_syscall_trace run).0.stats.stats)
unfolding AllSmall called run_syscall_trace
run-AllSmall = (omega arith, (omega arith, (omega arith, tt)))

print_summary-ranked_example :
    let st = (run_syscall_trace run).0.stats in
    (ss : List SyscallStat) × (print_summary st
      ≡ map (λ s. (syscall_name (pos s.number), s.count, s.total_time)) ss)
    × Perm (called st.stats) ss
    × IsSorted ranked ss
print_summary-ranked_example = print_summary-ranked (run_syscall_trace run).0.stats run-AllSmall
