-- ===== src/Frecency/Log.antt =====
-- The text of `hop.log`, as save_frecency and load_frecency of c-shell/src/frecency.c write and read it.
use c_shell.Base.{
  ℕ, zero, suc, ◌+◌, ◌/◌, ◌%◌, List, [], ◌∷◌, ◌++◌, Option, some, none, ◌>>=◌, length, ltb, ◌==◌,
  if◌then◌else◌, Bytes,
}
use c_shell.Numbers.{long_max, is_blank, is_digit, digits}
use c_shell.Main.{fgets}
use c_shell.Frecency.{Entry}

-- The decimal digits of a number before a text, in at most so many rounds.
unfoldable pub digits_before : ℕ → ℕ → Bytes → Bytes
digits_before zero n text = text
digits_before (suc rounds) n text =
    let more = digits_before rounds (n / 10) ((b'0' + n % 10) ∷ text) in
    if ltb n 10 then (b'0' + n) ∷ text else more

-- `%lld` of a number that is not negative, and what is printed behind it.
abbrev pub print_number : ℕ → Bytes → Bytes
print_number n text = digits_before (suc n) n text

-- `"%lld %lld %s\n"` up to the newline.
abbrev pub entry_text : Entry → Bytes
entry_text e = print_number e.frequency (b' ' ∷ print_number e.last_visit (b' ' ∷ e.path))

unfoldable pub log_text : List Entry → Bytes
unfolding digits_before
log_text [] = []
log_text (e ∷ es) = entry_text e ++ b'\n' ∷ log_text es

unfoldable pub skip_blanks : Bytes → Bytes
unfolding is_blank
skip_blanks [] = []
skip_blanks (c ∷ cs) = let rest = skip_blanks cs in if is_blank c then rest else c ∷ cs

abbrev pub skip_plus : Bytes → Bytes
skip_plus [] = []
skip_plus (c ∷ cs) = if c == b'+' then cs else c ∷ cs

abbrev pub clamped : ℕ × Bytes → ℕ × Bytes
clamped r = (if ltb long_max r.0 then long_max else r.0, r.1)

abbrev pub scan_digits : Bytes → Option (ℕ × Bytes)
scan_digits [] = none
scan_digits (c ∷ cs) = if is_digit c then some (clamped (digits 0 (c ∷ cs))) else none

-- `%lld`: the number and the text behind it. A minus sign, which is never saved, is not read.
unfoldable pub scan_number : Bytes → Option (ℕ × Bytes)
unfolding skip_blanks digits
scan_number text = scan_digits (skip_plus (skip_blanks text))

unfoldable pub to_newline : Bytes → Bytes
to_newline [] = []
to_newline (c ∷ cs) = let rest = to_newline cs in if c == b'\n' then [] else c ∷ rest

abbrev pub some_path : Bytes → Option Bytes
some_path [] = none
some_path (c ∷ cs) = some (c ∷ cs)

-- `sscanf(line, "%lld %lld %[^\n]", ...) == 3`
unfoldable pub scan_entry : Bytes → Option Entry
unfolding scan_number to_newline
scan_entry line = do
  f ← scan_number line
  l ← scan_number f.1
  p ← some_path (to_newline (skip_blanks l.1))
  some (record { path = p; frequency = f.0; last_visit = l.0 })

abbrev pub add_entry : Option Entry → List Entry → List Entry
add_entry none es = es
add_entry (some e) es = e ∷ es

-- `char line[PATH_MAX + 100]`
abbrev pub line_room : ℕ
line_room = 4195

-- The entries that the lines of a log give; a round for each byte is enough.
unfoldable pub entries_from : ℕ → Bytes → List Entry
unfolding scan_entry fgets
entries_from rounds [] = []
entries_from zero (c ∷ cs) = []
entries_from (suc rounds) (c ∷ cs) =
    let r = fgets line_room (c ∷ cs) in add_entry (scan_entry r.0) (entries_from rounds r.1)

unfoldable pub log_entries : Bytes → List Entry
unfolding entries_from
log_entries text = entries_from (length text) text
