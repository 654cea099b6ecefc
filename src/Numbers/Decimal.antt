-- ===== src/Numbers/Decimal.antt =====
-- What `strtol` reads from the decimal digits of a number.
use c_shell.Base.{ℕ, ◌+◌, ◌-◌, ◌*◌, ◌<◌, ◌≡◌, refl, true, false, List, [], ◌∷◌, map, ◌==◌, arith}
use c_shell.Numbers.{is_blank, is_digit, digits, to_long, strtol}

-- The number that decimal digits stand for, behind the number `n`.
unfoldable pub value : ℕ → List ℕ → ℕ
value n [] = n
value n (d ∷ ds) = value (n * 10 + d) ds

unfoldable pub AreDigits : List ℕ → Type 0
AreDigits [] = Unit
AreDigits (d ∷ ds) = (d < 10) × AreDigits ds

abbrev pub digit : ℕ → ℕ
digit d = b'0' + d

digits-value : (n : ℕ) (ds : List ℕ) → AreDigits ds → digits n (map digit ds) ≡ (value n ds, [])
unfolding digits value AreDigits is_digit
digits-value n [] h = refl
digits-value n (d ∷ ds) h =
    let is : is_digit (digit d) ≡ true = ground (arith, h.0) in
    let back : digit d - b'0' ≡ d = omega arith in rw (is, back) (digits-value (n * 10 + d) ds h.1)

-- A digit is no blank and no sign.
abbrev IsPlain : ℕ → Type 0
IsPlain c =
    (is_blank c ≡ false) × (is_digit c ≡ true) × ((c == b'-') ≡ false) × ((c == b'+') ≡ false)

digit-IsPlain : (d : ℕ) → d < 10 → IsPlain (digit d)
unfolding is_blank is_digit
digit-IsPlain d h = ground (arith, h)

-- `strtol` reads the digits of a number as the number, up to the largest `long`.
pub strtol-digits :
    (d : ℕ) (ds : List ℕ)
    → AreDigits (d ∷ ds)
    → strtol (map digit (d ∷ ds)) ≡ (to_long (value 0 (d ∷ ds)), [])
unfolding strtol AreDigits value
strtol-digits d ds h =
    let p = digit-IsPlain d h.0 in
    let read = digits-value (0 * 10 + d) ds h.1 in
    let back : digit d - b'0' ≡ d = omega arith in rw (p.0, p.1, p.2, p.3, back, read) refl
