-- ===== src/Snoop.antt =====
-- The `snoop` command: c-shell/src/snoop.c. Times are numbers of nanoseconds.
pub mod Names
pub mod Trace
pub mod Calls
pub mod Counts
pub mod Ranking
use c_shell.Base.{
  ◌>>=◌, ℕ, zero, suc, ◌+◌, ◌-◌, ◌*◌, ◌^◌, Bool, true, false, not, ◌&&◌, List, [], ◌∷◌, ◌++◌, map,
  Option, some, none, take, leb, ltb, ◌==◌, if◌then◌else◌, Bytes, str_eq, codes,
}
use c_shell.Lexer.{Token}
use c_shell.Numbers.{ℤ, pos, negsuc, to_int}
use c_shell.Sorting.{qsort}
use c_shell.Snoop.Names.{max_syscalls, Name, syscall_name}

-- `syscall_stat_t`; `none` is the order -1 of a call that has not been made.
pub record SyscallStat : Type 0 where
  pub number : ℕ
  pub count : ℕ
  pub total_time : ℕ
  pub order : Option ℕ

-- `stats` and `order_counter`.
pub record Stats : Type 0 where
  pub stats : List SyscallStat
  pub order_counter : ℕ

-- The `room` entries from `i` on.
unfoldable pub fresh_stats : ℕ → ℕ → List SyscallStat
fresh_stats i zero = []
fresh_stats i (suc room) =
    record { number = i; count = 0; total_time = 0; order = none } ∷ fresh_stats (suc i) room

unfoldable pub reset_stats : Stats
unfolding fresh_stats
reset_stats = record { stats = fresh_stats 0 max_syscalls; order_counter = 0 }

-- `stats[num]`, where `next` is the order counter, and the counter behind it.
abbrev pub counted : ℕ → ℕ → SyscallStat → SyscallStat × ℕ
counted next elapsed s = elim s.order [
  | none ↦ (
    record s { count = suc s.count; total_time = s.total_time + elapsed; order = some next },
    suc next,
  )
  | some o ↦ (record s { count = suc s.count; total_time = s.total_time + elapsed }, next)
]

unfoldable pub count_at : ℕ → ℕ → ℕ → List SyscallStat → List SyscallStat × ℕ
count_at num elapsed next [] = ([], next)
count_at zero elapsed next (s ∷ ss) = let c = counted next elapsed s in (c.0 ∷ ss, c.1)
count_at (suc n) elapsed next (s ∷ ss) = let r = count_at n elapsed next ss in (s ∷ r.0, r.1)

unfoldable pub record_syscall : ℤ → ℕ → Stats → Stats
unfolding count_at
record_syscall (negsuc n) elapsed st = st
record_syscall (pos n) elapsed st =
    if leb max_syscalls n
    then st
    else let r = count_at n elapsed st.order_counter st.stats in
      record { stats = r.0; order_counter = r.1 }

-- `a - b` of two that are not negative.
abbrev pub difference : ℕ → ℕ → ℤ
difference a b = if leb b a then pos (a - b) else negsuc (b - a - 1)

-- The order of an entry that has been counted.
abbrev pub rank : Option ℕ → ℕ
rank none = 0
rank (some o) = o

-- The difference of the counts is cut to an `int`.
unfoldable pub compare_stats : SyscallStat → SyscallStat → ℤ
unfolding to_int
compare_stats a b =
    if a.count == b.count
    then difference (rank a.order) (rank b.order)
    else to_int (2 ^ 64 + b.count - a.count)

abbrev pub not_positive : ℤ → Bool
not_positive (negsuc n) = true
not_positive (pos n) = n == 0

-- `compare_stats(a, b) <= 0`
unfoldable pub stats_before : SyscallStat → SyscallStat → Bool
unfolding compare_stats
stats_before a b = not_positive (compare_stats a b)

abbrev pub is_used : SyscallStat → Bool
is_used s = elim s.order [ none ↦ false | some o ↦ true ]

unfoldable pub used_stats : List SyscallStat → List SyscallStat
used_stats [] = []
used_stats (s ∷ ss) = let rest = used_stats ss in if is_used s then s ∷ rest else rest

-- The rows under the heading: name, calls and time.
abbrev pub row : SyscallStat → Name × ℕ × ℕ
row s = (syscall_name (pos s.number), s.count, s.total_time)

unfoldable pub print_summary : Stats → List (Name × ℕ × ℕ)
unfolding used_stats stats_before qsort
print_summary st = map row (qsort stats_before (used_stats st.stats))

-- A moment of the monotonic clock.
pub record Timespec : Type 0 where
  pub tv_sec : ℕ
  pub tv_nsec : ℕ

abbrev pub nanoseconds : Timespec → ℕ
nanoseconds t = t.tv_sec * 1000000000 + t.tv_nsec

abbrev pub timespec_diff : Timespec → Timespec → ℕ
timespec_diff start end = nanoseconds end - nanoseconds start
