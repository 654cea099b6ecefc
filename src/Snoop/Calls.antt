-- ===== src/Snoop/Calls.antt =====
-- The calls of a process that `run_syscall_trace` of c-shell/src/snoop.c follows.
use c_shell.Base.{
  ℕ, ◌≡◌, refl, ap, ◌∙◌, true, false, List, [], ◌∷◌, Option, some, none, ◌==◌, if◌then◌else◌,
  Bool-cases, inl, inr,
}
use c_shell.Numbers.{ℤ}
use c_shell.Snoop.{Stats, record_syscall, Timespec, timespec_diff}
use c_shell.Snoop.Trace.{
  Round, failed, not_stopped, ended, stopped, Tracer, sigtrap, on_stop, on_trap, enter_call,
  record_current, resumed, trace_loop,
}

-- A system call with the time it took.
abbrev pub Call : Type 0
Call = ℤ × ℕ

-- The call that has been entered, if there is one.
abbrev pub Entered : Type 0
Entered = Option (ℤ × Timespec)

abbrev pub left : Entered → Timespec → List Call → List Call
left none now cs = cs
left (some (num, start)) now cs = (num, timespec_diff start now) ∷ cs

abbrev pub entered : Entered → Option ℤ → Timespec → Entered
entered none none now = none
entered none (some num) now = some (num, now)
entered (some c) num now = none

-- The calls of a traced process: of the stops by SIGTRAP every other one is the entry of a call and the
-- next its exit, and an end closes the call that has been entered.
unfoldable pub calls : Entered → List Round → List Call
calls o [] = []
calls o (failed ∷ rs) = []
calls o (not_stopped ∷ rs) = calls o rs
calls o (ended now ∷ rs) = left o now []
calls o (stopped sig num now ∷ rs) =
    let skipped = calls o rs in
    let taken = left o now (calls (entered o num now) rs) in
    if sig == sigtrap then taken else skipped

-- The registers are read at each of the stops.
unfoldable pub AllRead : List Round → Type 0
AllRead [] = Unit
AllRead (failed ∷ rs) = AllRead rs
AllRead (not_stopped ∷ rs) = AllRead rs
AllRead (ended now ∷ rs) = AllRead rs
AllRead (stopped sig none now ∷ rs) = ⊥
AllRead (stopped sig (some num) now ∷ rs) = AllRead rs

unfoldable pub record_all : List Call → Stats → Stats
record_all [] st = st
record_all (c ∷ cs) st = record_all cs (record_syscall c.0 c.1 st)

-- The loop is at this point of a call.
abbrev At : Tracer → Entered → Type 0
At t none = t.expecting_entry ≡ true
At t (some (num, start)) =
    (t.expecting_entry ≡ false) × (t.current_syscall_num ≡ num) × (t.entry_time ≡ start)

-- A stop by SIGTRAP at the entry of a call, and at its exit.
on_stop-entry :
    (t : Tracer) (sig : ℕ) (num : ℤ) (now : Timespec)
    → (sig == sigtrap) ≡ true
    → t.expecting_entry ≡ true
    → on_stop sig (some num) now (resumed t)
      ≡ record (resumed t) { expecting_entry = false; current_syscall_num = num; entry_time = now }
on_stop-entry t sig num now trap entry =
    ap
      (λ b.
        if b then on_trap (some num) now (resumed t) else record (resumed t) { resume_sig = sig })
      trap
    ∙ ap
        (λ b.
          if b
          then enter_call (some num) now (resumed t)
          else record (record_current now (resumed t)) { expecting_entry = true })
        entry

on_stop-exit :
    (t : Tracer) (sig : ℕ) (num : ℤ) (now : Timespec)
    → (sig == sigtrap) ≡ true
    → t.expecting_entry ≡ false
    → on_stop sig (some num) now (resumed t)
      ≡ record (record_current now (resumed t)) { expecting_entry = true }
on_stop-exit t sig num now trap exit =
    ap
      (λ b.
        if b then on_trap (some num) now (resumed t) else record (resumed t) { resume_sig = sig })
      trap
    ∙ ap
        (λ b.
          if b
          then enter_call (some num) now (resumed t)
          else record (record_current now (resumed t)) { expecting_entry = true })
        exit

on_stop-other :
    (t : Tracer) (sig : ℕ) (num : ℤ) (now : Timespec)
    → (sig == sigtrap) ≡ false
    → on_stop sig (some num) now (resumed t) ≡ record (resumed t) { resume_sig = sig }
on_stop-other t sig num now other =
    ap
      (λ b.
        if b then on_trap (some num) now (resumed t) else record (resumed t) { resume_sig = sig })
      other

pub trace_loop-calls :
    (rs : List Round) (t : Tracer) (o : Entered)
    → At t o
    → AllRead rs
    → (trace_loop t rs).0.stats ≡ record_all (calls o rs) t.stats
unfolding trace_loop calls AllRead record_all
trace_loop-calls [] t o at ok = refl
trace_loop-calls (failed ∷ rs) t o at ok = refl
trace_loop-calls (not_stopped ∷ rs) t none at ok = trace_loop-calls rs _ none at ok
trace_loop-calls (not_stopped ∷ rs) t (some c) at ok = trace_loop-calls rs _ (some c) at ok
trace_loop-calls (ended now ∷ rs) t none at ok = rw at refl
trace_loop-calls (ended now ∷ rs) t (some c) at ok = rw (at.0, at.1, at.2) refl
trace_loop-calls (stopped sig none now ∷ rs) t o at ok = absurd ok
trace_loop-calls (stopped sig (some num) now ∷ rs) t none at ok =
    elim (Bool-cases (sig == sigtrap)) [
      | inl e ↦
          ap (λ u. (trace_loop u rs).0.stats) (on_stop-entry t sig num now e at)
          ∙ trace_loop-calls rs _ (some (num, now)) (refl, refl, refl) ok
          ∙ rw e refl
      | inr e ↦
          ap (λ u. (trace_loop u rs).0.stats) (on_stop-other t sig num now e)
          ∙ trace_loop-calls rs _ none at ok
          ∙ rw e refl
    ]
trace_loop-calls (stopped sig (some num) now ∷ rs) t (some c) at ok =
    elim (Bool-cases (sig == sigtrap)) [
      | inl e ↦
          ap (λ u. (trace_loop u rs).0.stats) (on_stop-exit t sig num now e at.0)
          ∙ trace_loop-calls rs _ none refl ok
          ∙ rw (e, at.1, at.2) refl
      | inr e ↦
          ap (λ u. (trace_loop u rs).0.stats) (on_stop-other t sig num now e)
          ∙ trace_loop-calls rs _ (some c) at ok
          ∙ rw e refl
    ]
