-- ===== src/Frecency/Digits.antt =====
-- The decimal numbers that c-shell/src/frecency.c prints.
use c_shell.Base.{
  ℕ, zero, suc, ◌+◌, ◌-◌, ◌*◌, ◌/◌, ◌%◌, ◌^◌, ◌≤◌, ◌<◌, ◌≡◌, refl, ap, ◌∙◌, true, false, [], ◌∷◌,
  length, ltb, ◌==◌, Bool-cases, inl, inr, Bytes, arith,
}
use c_shell.Numbers.{is_blank, is_digit, digits}
use c_shell.Frecency.Log.{digits_before}

abbrev pub NoNewline : Bytes → Type 0
NoNewline [] = Unit
NoNewline (c ∷ cs) = ((c == b'\n') ≡ false) × NoNewline cs

abbrev pub StartsPlain : Bytes → Type 0
StartsPlain [] = ⊥
StartsPlain (c ∷ cs) = is_blank c ≡ false

digit_step :
    (m n : ℕ) (text : Bytes) → n < 10 → digits m ((b'0' + n) ∷ text) ≡ digits (m * 10 + n) text
unfolding digits is_digit
digit_step m n text h =
    let is : is_digit (b'0' + n) ≡ true = ground (arith, h) in
    let back : b'0' + n - b'0' ≡ n = omega arith in rw (is, back) refl

tenth_less : (n rounds : ℕ) → 10 ≤ n → n < suc rounds → n / 10 < rounds
tenth_less n rounds big h = omega (arith, big, h)

pub digits-digits_before :
    (rounds n : ℕ) (text : Bytes)
    → n < rounds
    → digits 0 (digits_before rounds n text) ≡ digits n text
unfolding digits_before
digits-digits_before zero n text h = absurd (omega (arith, h))
digits-digits_before (suc rounds) n text h = elim (Bool-cases (ltb n 10)) [
  | inl e ↦ rw e (digit_step 0 n text (ground (arith, e)) ∙ ap (λ m. digits m text) (omega arith))
  | inr e ↦ rw e (
      digits-digits_before rounds (n / 10) ((b'0' + n % 10) ∷ text)
        (tenth_less n rounds (ground (arith, e)) (omega (arith, h)))
      ∙ digit_step (n / 10) (n % 10) text (omega arith)
      ∙ ap (λ m. digits m text) (omega arith))
]

-- The digits are not newlines, and at least one stands there.
not_newline : (n : ℕ) → ((b'0' + n % 10) == b'\n') ≡ false
not_newline n = let small : n % 10 < 10 = omega arith in ground (arith, small)

tenth_below : (n m : ℕ) → n < 10 * m → n / 10 < m
tenth_below n m h = omega (arith, h)

pub digits_before-NoNewline :
    (rounds n : ℕ) (text : Bytes) → NoNewline text → NoNewline (digits_before rounds n text)
unfolding digits_before
digits_before-NoNewline zero n text h = h
digits_before-NoNewline (suc rounds) n text h = elim (Bool-cases (ltb n 10)) [
  | inl e ↦ rw e (ground (arith, e), h)
  | inr e ↦
      rw e (digits_before-NoNewline rounds (n / 10) ((b'0' + n % 10) ∷ text) (not_newline n, h))
]

-- A text that starts with a digit.
abbrev pub Starts : Bytes → Type 0
Starts text = (d : ℕ) × (cs : Bytes) × (d < 10) × (text ≡ (b'0' + d) ∷ cs)

pub digits_before-Starts :
    (rounds n : ℕ) (text : Bytes) → n < rounds → Starts (digits_before rounds n text)
unfolding digits_before
digits_before-Starts zero n text h = absurd (omega (arith, h))
digits_before-Starts (suc rounds) n text h = elim (Bool-cases (ltb n 10)) [
  | inl e ↦ rw e (n, text, ground (arith, e), refl)
  | inr e ↦ rw e (
      digits_before-Starts rounds (n / 10) ((b'0' + n % 10) ∷ text)
        (tenth_less n rounds (ground (arith, e)) (omega (arith, h))))
]

-- A number of at most so many digits.
pub length-digits_before :
    (places rounds n : ℕ) (text : Bytes)
    → n < 10 ^ suc places
    → length (digits_before rounds n text) ≤ suc places + length text
unfolding digits_before
length-digits_before places zero n text h = omega arith
length-digits_before zero (suc rounds) n text h =
    let small : ltb n 10 ≡ true = ground (arith, h) in rw small (omega arith)
length-digits_before (suc places) (suc rounds) n text h = elim (Bool-cases (ltb n 10)) [
  | inl e ↦ rw e (omega arith)
  | inr e ↦ rw e (
      omega (
        arith,
        length-digits_before places rounds (n / 10) ((b'0' + n % 10) ∷ text)
            (tenth_below n (10 ^ suc places) (omega (arith, h))),
      ))
]
