-- ===== src/Snoop/Counts.antt =====
-- What the table of `snoop` counts: `run_syscall_trace` and `record_syscall` of c-shell/src/snoop.c.
use c_shell.Base.{
  ℕ, zero, suc, ◌+◌, ◌<◌, ◌≡◌, refl, ap, ◌∙◌, Bool, false, List, [], ◌∷◌, Option, some, none,
  get_elem?, leb, length, ◌==◌, if◌then◌else◌, Bool-cases, Option-cases, inl, inr, arith,
}
use c_shell.Numbers.{ℤ, pos, negsuc}
use c_shell.Snoop.{SyscallStat, Stats, fresh_stats, reset_stats, counted, count_at, record_syscall}
use c_shell.Snoop.Names.{max_syscalls}
use c_shell.Snoop.Trace.{Round, start_tracer, run_syscall_trace}
use c_shell.Snoop.Calls.{Call, calls, AllRead, record_all, trace_loop-calls}

pub length-count_at :
    (num e next : ℕ) (ss : List SyscallStat) → length (count_at num e next ss).0 ≡ length ss
unfolding count_at
length-count_at num e next [] = refl
length-count_at zero e next (s ∷ ss) = refl
length-count_at (suc n) e next (s ∷ ss) = ap suc (length-count_at n e next ss)

-- The calls and the time of a number that has been counted.
abbrev pub seen_in : SyscallStat → Option (ℕ × ℕ)
seen_in s = elim s.order [ none ↦ none | some o ↦ some (s.count, s.total_time) ]

abbrev pub seen_entry : Option SyscallStat → Option (ℕ × ℕ)
seen_entry none = none
seen_entry (some s) = seen_in s

pub seen : ℕ → List SyscallStat → Option (ℕ × ℕ)
seen n ss = seen_entry (get_elem? ss n)

-- One more call.
abbrev pub once_more : ℕ → Option (ℕ × ℕ) → Option (ℕ × ℕ)
once_more e none = some (1, e)
once_more e (some (c, t)) = some (suc c, t + e)

abbrev pub is_number : ℤ → ℕ → Bool
is_number (pos m) n = m == n
is_number (negsuc m) n = false

-- What there is to say about number n behind these calls.
pub tally : ℕ → Option (ℕ × ℕ) → List Call → Option (ℕ × ℕ)
tally n o [] = o
tally n o (c ∷ cs) = tally n (if is_number c.0 n then once_more c.1 o else o) cs

-- An entry without an order has counted nothing.
abbrev IsFresh : SyscallStat → Type 0
IsFresh s = elim s.order [ none ↦ (s.count ≡ 0) × (s.total_time ≡ 0) | some o ↦ Unit ]

AllFresh : List SyscallStat → Type 0
AllFresh [] = Unit
AllFresh (s ∷ ss) = IsFresh s × AllFresh ss

seen_in-counted :
    (next e : ℕ) (s : SyscallStat)
    → IsFresh s
    → (seen_in (counted next e s).0 ≡ once_more e (seen_in s)) × IsFresh (counted next e s).0
seen_in-counted next e s = elim (Option-cases s.order) [
  | inl none_ ↦
      rw none_ (λ fresh. (rw (fresh.0, fresh.1) (ap (λ t. some (1, t)) (omega arith)), tt))
  | inr (o, some_) ↦ rw some_ (λ fresh. (refl, tt))
]

count_at-AllFresh :
    (num e next : ℕ) (ss : List SyscallStat) → AllFresh ss → AllFresh (count_at num e next ss).0
unfolding count_at AllFresh
count_at-AllFresh num e next [] ok = tt
count_at-AllFresh zero e next (s ∷ ss) ok = ((seen_in-counted next e s ok.0).1, ok.1)
count_at-AllFresh (suc n) e next (s ∷ ss) ok = (ok.0, count_at-AllFresh n e next ss ok.1)

seen-count_at :
    (num e next : ℕ) (ss : List SyscallStat) (n : ℕ)
    → AllFresh ss
    → n < length ss
    → seen n (count_at num e next ss).0 ≡ (if num == n then once_more e (seen n ss) else seen n ss)
unfolding seen count_at AllFresh
seen-count_at num e next [] n ok h = absurd (omega arith)
seen-count_at zero e next (s ∷ ss) zero ok h = (seen_in-counted next e s ok.0).0
seen-count_at zero e next (s ∷ ss) (suc n) ok h =
    let other : (0 == suc n) ≡ false = ground arith in rw other refl
seen-count_at (suc m) e next (s ∷ ss) zero ok h =
    let other : (suc m == 0) ≡ false = ground arith in rw other refl
seen-count_at (suc m) e next (s ∷ ss) (suc n) ok h =
    let same : (suc m == suc n) ≡ (m == n) = ground arith in
    rw same (seen-count_at m e next ss n ok.1 (omega (arith, h)))

-- The table keeps its entries in their places.
abbrev IsTable : Stats → Type 0
IsTable st = AllFresh st.stats × (length st.stats ≡ max_syscalls)

seen-record_syscall :
    (c : Call) (st : Stats) (n : ℕ)
    → IsTable st
    → n < max_syscalls
    → (seen n (record_syscall c.0 c.1 st).stats
        ≡ (if is_number c.0 n then once_more c.1 (seen n st.stats) else seen n st.stats))
      × IsTable (record_syscall c.0 c.1 st)
unfolding record_syscall
seen-record_syscall (negsuc m, e) st n ok h = (refl, ok)
seen-record_syscall (pos m, e) st n ok h = elim (Bool-cases (leb max_syscalls m)) [
  | inl beyond ↦
      let other : (m == n) ≡ false = ground (arith, beyond, h) in rw (beyond, other) (refl, ok)
  | inr within ↦ rw within (
    seen-count_at m e st.order_counter st.stats n ok.0 (omega (arith, ok.1, h)),
    (
      count_at-AllFresh m e st.order_counter st.stats ok.0,
      length-count_at m e st.order_counter st.stats ∙ ok.1,
    ),
  )
]

seen-record_all :
    (cs : List Call) (st : Stats) (n : ℕ)
    → IsTable st
    → n < max_syscalls
    → seen n (record_all cs st).stats ≡ tally n (seen n st.stats) cs
unfolding record_all tally
seen-record_all [] st n ok h = refl
seen-record_all (c ∷ cs) st n ok h =
    let step = seen-record_syscall c st n ok h in
    seen-record_all cs (record_syscall c.0 c.1 st) n step.1 h ∙ ap (λ o. tally n o cs) step.0

fresh_stats-AllFresh : (i room : ℕ) → AllFresh (fresh_stats i room)
unfolding fresh_stats AllFresh
fresh_stats-AllFresh i zero = tt
fresh_stats-AllFresh i (suc room) = ((refl, refl), fresh_stats-AllFresh (suc i) room)

length-fresh_stats : (i room : ℕ) → length (fresh_stats i room) ≡ room
unfolding fresh_stats
length-fresh_stats i zero = refl
length-fresh_stats i (suc room) = ap suc (length-fresh_stats (suc i) room)

seen-fresh_stats : (i room n : ℕ) → seen n (fresh_stats i room) ≡ none
unfolding fresh_stats seen
seen-fresh_stats i zero n = refl
seen-fresh_stats i (suc room) zero = refl
seen-fresh_stats i (suc room) (suc n) = seen-fresh_stats (suc i) room n

-- If the registers are read at each stop, then for each number below 450 the table of a process that is
-- followed holds, in the end as at any time before, an entry in use exactly if the process has made a
-- call with that number, and its count and time are those of the calls, an entry and the next exit
-- being one call and an end closing the call it falls into.
pub seen-run_syscall_trace :
    (rs : List Round) (n : ℕ)
    → AllRead rs
    → n < max_syscalls
    → seen n (run_syscall_trace rs).0.stats.stats ≡ tally n none (calls none rs)
unfolding run_syscall_trace reset_stats
seen-run_syscall_trace rs n ok h =
    ap (λ st. seen n st.stats) (trace_loop-calls rs (start_tracer reset_stats) none refl ok)
    ∙ seen-record_all (calls none rs) reset_stats n
        (fresh_stats-AllFresh 0 max_syscalls, length-fresh_stats 0 max_syscalls) h
    ∙ ap (λ o. tally n o (calls none rs)) (seen-fresh_stats 0 max_syscalls n)
