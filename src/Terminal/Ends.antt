-- ===== src/Terminal/Ends.antt =====
-- The waiting loop of terminal.c ends once every process of the group has ended.
use c_shell.Base.{
  ℕ, suc, ◌+◌, ◌≡◌, ◌≢◌, ◌⊎◌, refl, sym, ap, subst, ◌∙◌, Bool, true, false, ◌||◌, List, [], ◌∷◌,
  Option, some, none, length, ltb, ◌==◌, arith, Bool-cases, inl, inr, ==_iff,
}
use mathlib.Core.Bool.{false≢true}
use c_shell.Jobs.{WaitStatus, is_end}
use c_shell.Jobs.Invariant.{All, NotIn, Distinct}
use c_shell.Terminal.{
  WaitReport, interrupted, failed, child, Marks, mark_finished, is_signaled, is_stop, ended,
  wait_loop, unmarked, wait_foreground_group,
}

-- A process of the group ends in one of the reports.
abbrev pub HasEnd : ℕ → List WaitReport → Type 0
HasEnd q [] = ⊥
HasEnd q (interrupted fired ∷ rs) = HasEnd q rs
HasEnd q (failed ∷ rs) = HasEnd q rs
HasEnd q (child p s ∷ rs) = ((p ≡ q) × (is_end s ≡ true)) ⊎ HasEnd q rs

-- No report is a failure or a stop.
abbrev pub OnlyEnds : List WaitReport → Type 0
OnlyEnds [] = Unit
OnlyEnds (interrupted fired ∷ rs) = OnlyEnds rs
OnlyEnds (failed ∷ rs) = ⊥
OnlyEnds (child p s ∷ rs) = (is_stop s ≡ false) × OnlyEnds rs

abbrev unfinished : Marks → List ℕ
unfinished [] = []
unfinished ((p, true) ∷ ms) = unfinished ms
unfinished ((p, false) ∷ ms) = p ∷ unfinished ms

abbrev rest_of : ℕ → Marks → Marks
rest_of pid ms = (mark_finished pid ms).0

mark_finished-count :
    (pid : ℕ) (ms : Marks)
    → (length (rest_of pid ms) ≡ length ms)
      × ((mark_finished pid ms).1 + length (unfinished (rest_of pid ms)) ≡ length (unfinished ms))
unfolding mark_finished
mark_finished-count pid [] = (refl, refl)
mark_finished-count pid ((p, true) ∷ ms) = ground (arith, mark_finished-count pid ms)
mark_finished-count pid ((p, false) ∷ ms) = ground (arith, mark_finished-count pid ms)

unfinished_hit :
    (pid p : ℕ) (ms : Marks)
    → (p == pid) ≡ true
    → unfinished (rest_of pid ((p, false) ∷ ms)) ≡ unfinished ms
unfolding mark_finished
unfinished_hit pid p ms e = ground arith

unfinished_miss :
    (pid p : ℕ) (ms : Marks)
    → (p == pid) ≡ false
    → unfinished (rest_of pid ((p, false) ∷ ms)) ≡ p ∷ unfinished (rest_of pid ms)
unfolding mark_finished
unfinished_miss pid p ms e = ground arith

mark_finished-All :
    (P : ℕ → Type 0) (pid : ℕ) (ms : Marks)
    → All P (unfinished ms)
    → All P (unfinished (rest_of pid ms))
unfolding mark_finished
mark_finished-All P pid [] h = tt
mark_finished-All P pid ((p, true) ∷ ms) h = ground (arith, mark_finished-All P pid ms h)
mark_finished-All P pid ((p, false) ∷ ms) h = elim (Bool-cases (p == pid)) [
  | inl e ↦ rw (unfinished_hit pid p ms e) h.1
  | inr e ↦ rw (unfinished_miss pid p ms e) (h.0, mark_finished-All P pid ms h.1)
]

NotIn-All : (n : ℕ) (ns : List ℕ) → NotIn n ns → All (λ m. n ≢ m) ns
NotIn-All n [] h = tt
NotIn-All n (m ∷ ns) h = (h.0, NotIn-All n ns h.1)

All-NotIn : (n : ℕ) (ns : List ℕ) → All (λ m. n ≢ m) ns → NotIn n ns
All-NotIn n [] h = tt
All-NotIn n (m ∷ ns) h = (h.0, All-NotIn n ns h.1)

-- After a process is marked its pid is not among those still awaited.
mark_finished-others :
    (pid : ℕ) (ms : Marks)
    → Distinct (unfinished ms)
    → All (λ q. pid ≢ q) (unfinished (rest_of pid ms)) × Distinct (unfinished (rest_of pid ms))
unfolding mark_finished
mark_finished-others pid [] d = (tt, tt)
mark_finished-others pid ((p, true) ∷ ms) d = ground (arith, mark_finished-others pid ms d)
mark_finished-others pid ((p, false) ∷ ms) d = elim (Bool-cases (p == pid)) [
  | inl e ↦
      rw (unfinished_hit pid p ms e)
        (subst (λ n. All (λ q. n ≢ q) (unfinished ms)) ((==_iff _ _).0 e) (NotIn-All p _ d.0), d.1)
  | inr e ↦
      let ih = mark_finished-others pid ms d.1 in
      rw (unfinished_miss pid p ms e) (
        ((λ f. false≢true (sym e ∙ (==_iff _ _).1 (sym f))), ih.0),
        (All-NotIn p _ (mark_finished-All (λ q. p ≢ q) pid ms (NotIn-All p _ d.0)), ih.1),
      )
]

-- What the loop needs: the count is right, each awaited process ends in a report, and no two
-- awaited processes have one pid.
record Awaits (ms : Marks) (count : ℕ) (rs : List WaitReport) : Type 0 where
  counted : count + length (unfinished ms) ≡ length ms
  will_end : All (λ q. HasEnd q rs) (unfinished ms)
  distinct : Distinct (unfinished ms)

-- A report about another process, or about no end, is not the end that is awaited.
HasEnd-other :
    (pid : ℕ) (s : WaitStatus) (rs : List WaitReport) (qs : List ℕ)
    → All (λ q. HasEnd q (child pid s ∷ rs)) qs
    → All (λ q. pid ≢ q) qs
    → All (λ q. HasEnd q rs) qs
HasEnd-other pid s rs [] h other = tt
HasEnd-other pid s rs (q ∷ qs) h other = (
  elim h.0 [ inl here ↦ absurd (other.0 here.0) | inr later ↦ later ],
  HasEnd-other pid s rs qs h.1 other.1,
)

HasEnd-not_end :
    (pid : ℕ) (s : WaitStatus) (rs : List WaitReport) (qs : List ℕ)
    → is_end s ≡ false
    → All (λ q. HasEnd q (child pid s ∷ rs)) qs
    → All (λ q. HasEnd q rs) qs
HasEnd-not_end pid s rs [] e h = tt
HasEnd-not_end pid s rs (q ∷ qs) e h = (
  elim h.0 [ inl here ↦ absurd (false≢true (sym e ∙ here.1)) | inr later ↦ later ],
  HasEnd-not_end pid s rs qs e h.1,
)

Awaits-none : (ms : Marks) (count : ℕ) → Awaits ms count [] → count ≡ length ms
Awaits-none ms count a = none_left (unfinished ms) a.will_end a.counted
  where
    none_left :
        (qs : List ℕ)
        → All (λ q. HasEnd q []) qs
        → count + length qs ≡ length ms
        → count ≡ length ms
    none_left [] h e = omega arith
    none_left (q ∷ qs) h e = absurd h.0

Awaits-marked :
    (ms : Marks) (count pid : ℕ) (s : WaitStatus) (rs : List WaitReport)
    → Awaits ms count (child pid s ∷ rs)
    → Awaits (rest_of pid ms) (count + (mark_finished pid ms).1) rs
Awaits-marked ms count pid s rs a =
    let others = mark_finished-others pid ms a.distinct in
    record {
      counted = let c = a.counted in omega (arith, mark_finished-count pid ms);
      will_end =
          HasEnd-other pid s rs _
            (mark_finished-All (λ q. HasEnd q (child pid s ∷ rs)) pid ms a.will_end) others.0;
      distinct = others.1;
    }

Returned : Option ℕ → Type 0
Returned none = ⊥
Returned (some code) = (code ≡ 0) ⊎ (code ≡ 2)

ended-Returned : (sig : Bool) → Returned (some (ended sig))
unfolding Returned
ended-Returned true = inr refl
ended-Returned false = inl refl

wait_loop-Returned :
    (ms : Marks) (count : ℕ) (sig : Bool) (rs : List WaitReport)
    → Awaits ms count rs
    → OnlyEnds rs
    → Returned (wait_loop ms count sig rs)
unfolding wait_loop
wait_loop-Returned ms count sig [] a h =
    let full : ltb count (length ms) ≡ false = ground (arith, Awaits-none ms count a) in
    rw full (ended-Returned sig)
wait_loop-Returned ms count sig (interrupted fired ∷ rs) a h =
    elim (Bool-cases (ltb count (length ms))) [
      | inl e ↦ rw e (
          wait_loop-Returned ms count sig rs
            (record { counted = a.counted; will_end = a.will_end; distinct = a.distinct }) h)
      | inr e ↦ rw e (ended-Returned sig)
    ]
wait_loop-Returned ms count sig (failed ∷ rs) a h = absurd h
wait_loop-Returned ms count sig (child pid s ∷ rs) a h = elim (Bool-cases (ltb count (length ms))) [
  | inr e ↦ rw (e, wait_loop) (ended-Returned sig)
  | inl e ↦ elim (Bool-cases (is_end s)) [
    | inl f ↦
        rw (e, h.0, f, wait_loop)
          (wait_loop-Returned (rest_of pid ms) (count + (mark_finished pid ms).1)
            (sig || is_signaled s) rs (Awaits-marked ms count pid s rs a) h.1)
    | inr f ↦
        rw (e, h.0, f, wait_loop)
          (wait_loop-Returned ms count (sig || is_signaled s) rs
            (record {
              counted = a.counted;
              will_end = HasEnd-not_end pid s rs _ f a.will_end;
              distinct = a.distinct;
            })
            h.1)
  ]
]

unfinished-unmarked : (pids : List ℕ) → unfinished (unmarked pids) ≡ pids
unfinished-unmarked [] = refl
unfinished-unmarked (p ∷ pids) = ap (◌∷◌ p) (unfinished-unmarked pids)

length-unmarked : (pids : List ℕ) → length (unmarked pids) ≡ length pids
length-unmarked [] = refl
length-unmarked (p ∷ pids) = ap suc (length-unmarked pids)

-- If the processes of the group have distinct pids, each of them ends in one of the reports, and no
-- report is a stop or a failure, `wait_foreground_group` returns, with 0 or 2, whatever else is
-- reported and in whatever order.
pub wait_foreground_group_returns :
    (pids : List ℕ) (rs : List WaitReport)
    → Distinct pids
    → All (λ q. HasEnd q rs) pids
    → OnlyEnds rs
    → (wait_foreground_group pids rs ≡ some 0) ⊎ (wait_foreground_group pids rs ≡ some 2)
unfolding wait_foreground_group Returned
wait_foreground_group_returns pids rs d h only =
    let r =
      wait_loop-Returned (unmarked pids) 0 false rs
        (record {
          counted = omega (arith, length-unmarked pids, ap length (unfinished-unmarked pids));
          will_end = rw (unfinished-unmarked pids) h;
          distinct = rw (unfinished-unmarked pids) d;
        })
        only in
    ground arith
