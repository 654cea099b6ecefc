-- ===== src/Frecency/Saved.antt =====
-- That load_frecency of c-shell/src/frecency.c reads what save_frecency writes.
use c_shell.Base.{
  ℕ, zero, suc, ◌+◌, ◌/◌, ◌%◌, ◌≤◌, ◌<◌, ◌≡◌, refl, ap, ◌∙◌, true, false, List, [], ◌∷◌, ◌++◌, some,
  length, length-append, ltb, ◌==◌, Bool-cases, inl, inr, Bytes, arith,
}
use c_shell.Numbers.{long_max, is_blank, is_digit, digits}
use c_shell.Main.{fgets}
use c_shell.Frecency.{Entry}
use c_shell.Frecency.Log.{
  digits_before, print_number, entry_text, log_text, skip_blanks, skip_plus, clamped, scan_digits,
  scan_number, to_newline, some_path, scan_entry, add_entry, line_room, entries_from, log_entries,
}
use c_shell.Frecency.Digits.{
  NoNewline, StartsPlain, digits-digits_before, digits_before-NoNewline, Starts,
  digits_before-Starts, length-digits_before,
}

-- An entry that a log can hold: its numbers are below 2^63, and its path, as getcwd gives one, is not
-- empty, starts with no blank, has fewer than 4096 bytes and no newline.
pub record IsSaved (e : Entry) : Type 0 where
  pub frequency_ok : e.frequency ≤ long_max
  pub last_visit_ok : e.last_visit ≤ long_max
  pub short : length e.path < 4096
  pub one_line : NoNewline e.path
  pub plain : StartsPlain e.path

unfoldable pub AllSaved : List Entry → Type 0
AllSaved [] = Unit
AllSaved (e ∷ es) = IsSaved e × AllSaved es

-- `fgets` takes a line that fits, with its newline.
fgets-line :
    (room : ℕ) (line text : Bytes)
    → NoNewline line
    → length line < room
    → fgets room (line ++ b'\n' ∷ text) ≡ (line ++ b'\n' ∷ [], text)
unfolding fgets
fgets-line zero line text h short = absurd (omega (arith, short))
fgets-line (suc room) [] text h short = refl
fgets-line (suc room) (c ∷ cs) text h short =
    let rest = fgets-line room cs text h.1 (omega (arith, short)) in rw (h.0, rest) refl

to_newline-line : (line : Bytes) → NoNewline line → to_newline (line ++ b'\n' ∷ []) ≡ line
unfolding to_newline
to_newline-line [] h = refl
to_newline-line (c ∷ cs) h = rw h.0 (ap (◌∷◌ c) (to_newline-line cs h.1))

digits_before-append :
    (rounds n : ℕ) (text more : Bytes)
    → digits_before rounds n text ++ more ≡ digits_before rounds n (text ++ more)
unfolding digits_before
digits_before-append zero n text more = refl
digits_before-append (suc rounds) n text more = elim (Bool-cases (ltb n 10)) [
  | inl e ↦ rw e refl
  | inr e ↦ rw e (digits_before-append rounds (n / 10) ((b'0' + n % 10) ∷ text) more)
]

unclamped : (n : ℕ) (text : Bytes) → n ≤ long_max → clamped (n, text) ≡ (n, text)
unclamped n text h = let small : ltb long_max n ≡ false = ground (arith, h) in rw small refl

scan_digits-Starts :
    (text : Bytes)
    → Starts text
    → scan_digits (skip_plus (skip_blanks text)) ≡ some (clamped (digits 0 text))
unfolding skip_blanks is_blank is_digit
scan_digits-Starts text (d, cs, small, e) =
    let blank : is_blank (b'0' + d) ≡ false = ground (arith, small) in
    let plus : (b'0' + d == b'+') ≡ false = ground (arith, small) in
    let is : is_digit (b'0' + d) ≡ true = ground (arith, small) in rw e (rw (blank, plus, is) refl)

-- A printed number is scanned, up to the blank behind it.
scan_number-print :
    (n : ℕ) (text : Bytes)
    → n ≤ long_max
    → scan_number (print_number n (b' ' ∷ text)) ≡ some (n, b' ' ∷ text)
unfolding scan_number digits is_digit
scan_number-print n text h =
    scan_digits-Starts (print_number n (b' ' ∷ text))
      (digits_before-Starts (suc n) n (b' ' ∷ text) (omega arith))
    ∙ ap (λ r. some (clamped r)) (digits-digits_before (suc n) n (b' ' ∷ text) (omega arith))
    ∙ ap some (unclamped n (b' ' ∷ text) h)

scan_number-blank : (text : Bytes) → scan_number (b' ' ∷ text) ≡ scan_number text
unfolding scan_number skip_blanks is_blank
scan_number-blank text = refl

skip_blanks-path :
    (path text : Bytes) → StartsPlain path → skip_blanks (b' ' ∷ path ++ text) ≡ path ++ text
unfolding skip_blanks is_blank
skip_blanks-path [] text h = absurd h
skip_blanks-path (c ∷ cs) text h = rw h refl

some_path-plain : (path : Bytes) → StartsPlain path → some_path path ≡ some path
some_path-plain [] h = absurd h
some_path-plain (c ∷ cs) h = refl

entry_text-append :
    (e : Entry) (t : Bytes)
    → entry_text e ++ t
      ≡ print_number e.frequency (b' ' ∷ print_number e.last_visit (b' ' ∷ e.path ++ t))
entry_text-append e t =
    digits_before-append (suc e.frequency) e.frequency
      (b' ' ∷ print_number e.last_visit (b' ' ∷ e.path)) t
    ∙ ap (λ x. print_number e.frequency (b' ' ∷ x))
        (digits_before-append (suc e.last_visit) e.last_visit (b' ' ∷ e.path) t)

scan_entry-line : (e : Entry) → IsSaved e → scan_entry (entry_text e ++ b'\n' ∷ []) ≡ some e
unfolding scan_entry
scan_entry-line e ok =
    let t = b'\n' ∷ [] in
    let behind = print_number e.last_visit (b' ' ∷ e.path ++ t) in
    rw
      (
        entry_text-append e t,
        scan_number-print e.frequency behind ok.frequency_ok,
        scan_number-blank behind,
        scan_number-print e.last_visit (e.path ++ t) ok.last_visit_ok,
        skip_blanks-path e.path t ok.plain,
        to_newline-line e.path ok.one_line,
        some_path-plain e.path ok.plain,
      )
      refl

entry_text-NoNewline : (e : Entry) → IsSaved e → NoNewline (entry_text e)
entry_text-NoNewline e ok = digits_before-NoNewline (suc e.frequency) e.frequency _ (
  refl,
  digits_before-NoNewline (suc e.last_visit) e.last_visit (b' ' ∷ e.path) (refl, ok.one_line),
)

length-entry_text : (e : Entry) → IsSaved e → length (entry_text e) < line_room
length-entry_text e ok = omega (
  arith,
  length-digits_before 18 (suc e.frequency) e.frequency
      (b' ' ∷ print_number e.last_visit (b' ' ∷ e.path)) (omega (arith, ok.frequency_ok)),
  length-digits_before 18 (suc e.last_visit) e.last_visit (b' ' ∷ e.path)
      (omega (arith, ok.last_visit_ok)),
  ok.short,
)

entries_none : (rounds : ℕ) → entries_from rounds [] ≡ []
unfolding entries_from
entries_none rounds = refl

entries_step :
    (rounds : ℕ) (text : Bytes)
    → Starts text
    → let r = fgets line_room text in
      entries_from (suc rounds) text ≡ add_entry (scan_entry r.0) (entries_from rounds r.1)
unfolding entries_from
entries_step rounds text (d, cs, small, e) = rw e refl

log-Starts : (e : Entry) (t : Bytes) → Starts (entry_text e ++ t)
log-Starts e t =
    rw (entry_text-append e t) (digits_before-Starts (suc e.frequency) e.frequency _ (omega arith))

entries_from-text :
    (rounds : ℕ) (es : List Entry)
    → AllSaved es
    → length es ≤ rounds
    → entries_from rounds (log_text es) ≡ es
unfolding AllSaved log_text
entries_from-text rounds [] ok h = entries_none rounds
entries_from-text zero (e ∷ es) ok h = absurd (omega (arith, h))
entries_from-text (suc rounds) (e ∷ es) ok h =
    let taken =
      fgets-line line_room (entry_text e) (log_text es) (entry_text-NoNewline e ok.0)
        (length-entry_text e ok.0) in
    entries_step rounds (entry_text e ++ b'\n' ∷ log_text es) (log-Starts e (b'\n' ∷ log_text es))
    ∙ rw (taken, scan_entry-line e ok.0)
        (ap (◌∷◌ e) (entries_from-text rounds es ok.1 (omega (arith, h))))

length-log_text : (es : List Entry) → length es ≤ length (log_text es)
unfolding log_text
length-log_text [] = omega arith
length-log_text (e ∷ es) =
    omega (arith, length-append (entry_text e) (b'\n' ∷ log_text es), length-log_text es)

-- The log that is written for entries with numbers below 2^63 and paths that are not empty, start with
-- no blank, have fewer than 4096 bytes and no newline, is read as these entries, in order.
pub log_entries-log_text : (es : List Entry) → AllSaved es → log_entries (log_text es) ≡ es
unfolding log_entries
log_entries-log_text es ok = entries_from-text (length (log_text es)) es ok (length-log_text es)
