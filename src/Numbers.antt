-- ===== src/Numbers.antt =====
-- `strtol` with base 10 and the conversion of a `long` to an `int`, as resume.c and ping.c use them.
pub mod Decimal
use c_shell.Base.{
  ℕ, zero, suc, ◌+◌, ◌-◌, ◌*◌, ◌%◌, ◌^◌, Bool, true, false, ◌&&◌, ◌||◌, List, [], ◌∷◌, Option, some,
  none, ltb, leb, ◌==◌, if◌then◌else◌, Bytes,
}

-- `negsuc n` is -(n + 1).
pub data ℤ : Type 0 where
  pos negsuc : ℕ → ℤ

abbrev pub long_max : ℕ
long_max = 9223372036854775807

-- isspace
unfoldable pub is_blank : ℕ → Bool
is_blank c = c == b' ' || (leb 9 c && leb c 13)

unfoldable pub is_digit : ℕ → Bool
is_digit c = leb b'0' c && leb c b'9'

-- The digits at the start of a text, with the number before them, and the rest.
unfoldable pub digits : ℕ → Bytes → ℕ × Bytes
unfolding is_digit
digits n [] = (n, [])
digits n (c ∷ cs) =
    let more = digits (n * 10 + (c - b'0')) cs in if is_digit c then more else (n, c ∷ cs)

abbrev pub to_long : ℕ → ℤ
to_long n = pos (if ltb long_max n then long_max else n)

abbrev pub negated : ℕ → ℤ
negated zero = pos 0
negated (suc n) = negsuc (if ltb long_max n then long_max else n)

-- The digits behind the sign, if there is one; `text` is the whole text, where `endptr` stays
-- without.
unfoldable pub unsigned : Bytes → (ℕ → ℤ) → Bytes → ℤ × Bytes
unfolding digits
unsigned text sign [] = (pos 0, text)
unsigned text sign (c ∷ cs) =
    let r = digits 0 (c ∷ cs) in if is_digit c then (sign r.0, r.1) else (pos 0, text)

unfoldable pub signed : Bytes → Bytes → ℤ × Bytes
unfolding unsigned is_blank
signed text [] = (pos 0, text)
signed text (c ∷ cs) =
    let more = signed text cs in
    if is_blank c
    then more
    else if c == b'-'
    then unsigned text negated cs
    else if c == b'+'
    then unsigned text to_long cs
    else unsigned text to_long (c ∷ cs)

-- The value and the text at `endptr`. A number out of range gives the nearest `long`.
unfoldable pub strtol : Bytes → ℤ × Bytes
unfolding signed
strtol text = signed text text

-- `*endptr == '\0' && v >= 0`
abbrev pub whole : ℤ × Bytes → Option ℕ
whole (pos n, []) = some n
whole (negsuc n, []) = none
whole (v, c ∷ cs) = none

-- `*endptr == '\0' && v > 0`
abbrev pub whole_positive : ℤ × Bytes → Option ℕ
whole_positive (pos (suc n), []) = some (suc n)
whole_positive (pos zero, []) = none
whole_positive (negsuc n, []) = none
whole_positive (v, c ∷ cs) = none

-- `(int)v` for a `v` that is not negative.
unfoldable pub to_int : ℕ → ℤ
to_int v = let m = v % 2 ^ 32 in if ltb m (2 ^ 31) then pos m else negsuc (2 ^ 32 - 1 - m)

-- `n == i`
abbrev pub same : ℕ → ℤ → Bool
same n (pos m) = n == m
same n (negsuc m) = false
