-- ===== src/Main/Session.antt =====
-- What the main loop of c-shell/src/main.c does with all of its input.
use c_shell.Base.{
  ℕ, zero, suc, ◌+◌, ◌*◌, ◌≤◌, ◌<◌, ◌≡◌, ◌≢◌, refl, ap, sym, subst, ◌∙◌, ◌⊎◌, inl, inr, Bool, true,
  false, not, ◌&&◌, ◌||◌, List, [], ◌∷◌, ◌++◌, some, ◌==◌, if◌then◌else◌, Bytes, length,
  length-append, Bool-cases, arith,
}
use c_shell.Lexer.{word_size}
use c_shell.Jobs.{Table}
use c_shell.Jobs.Invariant.{IsTable}
use c_shell.Terminal.{handle_eof}
use c_shell.Terminal.Eof.{some_stopped, groups, handle_eof_lem}
use c_shell.Main.{
  Turn, Event, turn, warned, left, main_turn, cut_newline, fgets, input_room, after_eof, main_loop,
}
use c_shell.Main.Turns.{Means, main_turn-Means}

unfoldable pub NoNewline : Bytes → Type 0
NoNewline [] = Unit
NoNewline (c ∷ cs) = (c ≢ b'\n') × NoNewline cs

-- A test for it.
unfoldable pub plain : Bytes → Bool
plain [] = true
plain (c ∷ cs) = not (c == b'\n') && plain cs

pub plain-NoNewline : (cs : Bytes) → plain cs ≡ true → NoNewline cs
unfolding plain NoNewline
plain-NoNewline [] h = tt
plain-NoNewline (c ∷ cs) h = ((λ n. ground (arith, h, n)), plain-NoNewline cs (ground (arith, h)))

-- How a line is read with so much room: with its newline, or as much as there is room for, or up to the
-- end of input.
abbrev pub Read : ℕ → Bytes → Bytes → Bytes → Type 0
Read room line piece rest =
    NoNewline line
    × (((piece ≡ line ++ b'\n' ∷ []) × (length line < room))
        ⊎ ((piece ≡ line) × (length line ≡ room))
        ⊎ ((piece ≡ line) × (length line < room) × (rest ≡ [])))

Read-cons :
    (room c : ℕ) (line piece rest : Bytes)
    → (c == b'\n') ≡ false
    → Read room line piece rest
    → Read (suc room) (c ∷ line) (c ∷ piece) rest
unfolding NoNewline
Read-cons room c line piece rest e (h, inl (p, l)) =
    (((λ n. ground (arith, e, n)), h), inl (ap (◌∷◌ c) p, omega (arith, l)))
Read-cons room c line piece rest e (h, inr (inl (p, l))) =
    (((λ n. ground (arith, e, n)), h), inr (inl (ap (◌∷◌ c) p, omega (arith, l))))
Read-cons room c line piece rest e (h, inr (inr (p, l, r))) =
    (((λ n. ground (arith, e, n)), h), inr (inr (ap (◌∷◌ c) p, omega (arith, l), r)))

fgets-Read :
    (room : ℕ) (cs : Bytes)
    → let r = fgets room cs in Read room (cut_newline r.0) r.0 r.1 × (cs ≡ r.0 ++ r.1)
unfolding fgets cut_newline NoNewline
fgets-Read zero [] = ((tt, inr (inl (refl, refl))), refl)
fgets-Read (suc room) [] = ((tt, inr (inr (refl, omega arith, refl))), refl)
fgets-Read zero (c ∷ cs) = ((tt, inr (inl (refl, refl))), refl)
fgets-Read (suc room) (c ∷ cs) = elim (Bool-cases (c == b'\n')) [
  | inl e ↦
      let same : c ≡ b'\n' = ground (arith, e) in
      rw (e, e) ((tt, inl (ap (λ a. a ∷ []) same, omega arith)), refl)
  | inr e ↦
      let rest = fgets-Read room cs in
      let r = fgets room cs in
      rw (e, e) (Read-cons room c (cut_newline r.0) r.0 r.1 e rest.0, ap (◌∷◌ c) rest.1)
]

fgets-takes : (room : ℕ) (c : ℕ) (cs : Bytes) → 1 ≤ length (fgets (suc room) (c ∷ cs)).0
unfolding fgets
fgets-takes room c cs = ground arith

Read-short :
    (room : ℕ) (line piece rest : Bytes) → Read room line piece rest → length line < suc room
Read-short room line piece rest (h, inl (p, l)) = omega (arith, l)
Read-short room line piece rest (h, inr (inl (p, l))) = omega (arith, l)
Read-short room line piece rest (h, inr (inr (p, l, r))) = omega (arith, l)

-- The input is at an end, and what comes behind it.
abbrev pub behind : List Bytes → List Bytes
behind [] = []
behind (chunk ∷ later) = later

abbrev pub AtEnd : List Bytes → Type 0
AtEnd [] = Unit
AtEnd (chunk ∷ later) = chunk ≡ []

-- The session of a shell, with what `previous_eof` is, the events so far, the input that is left, and
-- all the events in the end. A line of at most 1023 bytes is read and its turn means what it says of
-- that line. At an end of input the shell warns if a process in the table is stopped and no end came
-- before it; else it leaves, and the groups of all jobs are sent SIGHUP.
pub data Session (table : List Event → Table)
    : Bool → List Event → List Bytes → List Event → Type 0 where
  line :
      {previous_eof : Bool} {log : List Event} {line piece rest : Bytes} {later : List Bytes}
      {events : List Event} (t : Turn)
      → Read 1023 line piece rest
      → 1 ≤ length piece
      → Means line t
      → Session table false (log ++ turn t ∷ []) (rest ∷ later) events
      → Session table previous_eof log ((piece ++ rest) ∷ later) events
  stays :
      {log : List Event} {stdin : List Bytes} {events : List Event}
      → AtEnd stdin
      → some_stopped (table log).jobs ≡ true
      → Session table true (log ++ warned ∷ []) (behind stdin) events
      → Session table false log stdin events
  leaves :
      {previous_eof : Bool} {log : List Event} {stdin : List Bytes}
      → AtEnd stdin
      → (some_stopped (table log).jobs ≡ false) ⊎ (previous_eof ≡ true)
      → Session table previous_eof log stdin (log ++ left (groups (table log).jobs) ∷ [])

-- The bytes of the input, and one for each end.
abbrev pub size : List Bytes → ℕ
size [] = 0
size (chunk ∷ later) = length chunk + 1 + size later

-- Rounds that are enough.
abbrev pub enough : Bool → List Bytes → ℕ
enough previous_eof stdin = 2 * size stdin + (if previous_eof then 1 else 2)

end_now :
    (stopped previous : Bool)
    → (not stopped || previous) ≡ true
    → (stopped ≡ false) ⊎ (previous ≡ true)
end_now false previous h = inl refl
end_now true previous h = inr h

module _ (table : List Event → Table) (sound : (log : List Event) → IsTable (table log)) where
  abbrev Ends : ℕ → Bool → List Event → List Bytes → Type 0
  Ends rounds previous_eof log stdin =
      (events : List Event) × (main_loop table rounds previous_eof log stdin ≡ some events)
      × Session table previous_eof log stdin events

  -- An end of input, whatever the loop goes on with.
  at_end :
      (rounds : ℕ) (previous_eof : Bool) (log : List Event) (stdin : List Bytes)
      → AtEnd stdin
      → (previous_eof ≡ false → Ends rounds true (log ++ warned ∷ []) (behind stdin))
      → (events : List Event) × (after_eof
            (handle_eof (table log) previous_eof)
            log
            (λ previous log'. main_loop table rounds previous log' (behind stdin))
          ≡ some events)
        × Session table previous_eof log stdin events
  at_end rounds previous_eof log stdin end more =
      let r = handle_eof (table log) previous_eof in
      let says = handle_eof_lem (table log) previous_eof (sound log) in
      elim (Bool-cases (not (some_stopped (table log).jobs) || previous_eof)) [
        | inl e ↦ (
          log ++ left (groups (table log).jobs) ∷ [],
          rw (says.2, says.0, e) refl,
          leaves end (end_now (some_stopped (table log).jobs) previous_eof e),
        )
        | inr e ↦
            let fresh : previous_eof ≡ false = ground (arith, e) in
            let held : some_stopped (table log).jobs ≡ true = ground (arith, e) in
            let rest = more fresh in
            (
              rest.0,
              rw (says.3, says.0, e) (rest.1),
              subst (λ b. Session table b log stdin rest.0) (sym fresh) (stays end held rest.2),
            )
      ]

  pub main_loop-Session :
      (rounds : ℕ) (previous_eof : Bool) (log : List Event) (stdin : List Bytes)
      → enough previous_eof stdin ≤ rounds
      → Ends rounds previous_eof log stdin
  unfolding main_loop
  main_loop-Session zero previous_eof log stdin h = absurd (ground (arith, h))
  main_loop-Session (suc rounds) previous_eof log [] h =
      at_end rounds previous_eof log [] tt
        (λ fresh. main_loop-Session rounds true (log ++ warned ∷ []) [] (ground (arith, h, fresh)))
  main_loop-Session (suc rounds) previous_eof log ([] ∷ later) h =
      at_end rounds previous_eof log ([] ∷ later) refl (λ fresh.
        main_loop-Session rounds true (log ++ warned ∷ []) later (ground (arith, h, fresh)))
  main_loop-Session (suc rounds) previous_eof log ((c ∷ cs) ∷ later) h =
      let r = fgets input_room (c ∷ cs) in
      let text = cut_newline r.0 in
      let read = fgets-Read input_room (c ∷ cs) in
      let takes = fgets-takes 1022 c cs in
      let sizes : length (c ∷ cs) ≡ length r.0 + length r.1 =
        ap length read.1 ∙ length-append r.0 r.1 in
      let short : length text < word_size = omega (arith, Read-short 1023 text r.0 r.1 read.0) in
      let t = main_turn text in
      let rest =
        main_loop-Session rounds false (log ++ turn t ∷ []) (r.1 ∷ later)
          (ground (arith, h, sizes, takes)) in
      (
        rest.0,
        rest.1,
        subst (λ chunk. Session table previous_eof log (chunk ∷ later) rest.0) (sym read.1)
            (line t read.0 takes (main_turn-Means text short) rest.2),
      )

fgets-line :
    (room : ℕ) (cs rest : Bytes)
    → NoNewline cs
    → length cs < room
    → fgets room (cs ++ b'\n' ∷ rest) ≡ (cs ++ b'\n' ∷ [], rest)
unfolding fgets NoNewline
fgets-line zero cs rest h l = absurd (omega (arith, l))
fgets-line (suc room) [] rest h l = refl
fgets-line (suc room) (c ∷ cs) rest h l =
    let other : (c == b'\n') ≡ false = ground (arith, h.0) in
    rw (other, fgets-line room cs rest h.1 (omega (arith, l))) refl

pub cut_newline-line : (cs rest : Bytes) → NoNewline cs → cut_newline (cs ++ b'\n' ∷ rest) ≡ cs
unfolding cut_newline NoNewline
cut_newline-line [] rest h = refl
cut_newline-line (c ∷ cs) rest h =
    let other : (c == b'\n') ≡ false = ground (arith, h.0) in
    rw (other, cut_newline-line cs rest h.1) refl

-- A line with room for its newline is read whole.
pub fgets-whole :
    (cs rest : Bytes)
    → NoNewline cs
    → length cs ≤ 1022
    → let r = fgets input_room (cs ++ b'\n' ∷ rest) in (cut_newline r.0 ≡ cs) × (r.1 ≡ rest)
fgets-whole cs rest h l =
    let e = fgets-line input_room cs rest h (omega (arith, l)) in
    (ap (λ r. cut_newline r.0) e ∙ cut_newline-line cs [] h, ap (λ r. r.1) e)
