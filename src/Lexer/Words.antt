-- ===== src/Lexer/Words.antt =====
-- The bounds of the word buffer in the routines of lexer.c that read one word.
use c_shell.Base.{
  ℕ, zero, suc, ◌+◌, ◌≤◌, ◌<◌, ◌≡◌, not, ◌&&◌, ◌||◌, [], ◌∷◌, ◌++◌, ◌==◌, ltb, length,
  length-append, Bytes, arith, Bool-cases, inl, inr,
}
use c_shell.Lexer.{
  Scan, ok, invalid, overflow, out_of_fuel, ◌>>=◌, put, word_size, backslash_quote, single_quote,
  double_quote, read_piece, end_word, read_word, is_space, is_special,
}

-- A scan of `n` bytes (the word's and the rest's) that leaves at most `m` bytes unread.
abbrev pub Within : ℕ → ℕ → Scan (Bytes × Bytes) → Type 0
Within n m (ok r) = (length r.0 + length r.1 ≤ n) × (length r.1 ≤ m)
Within n m invalid = Unit
Within n m overflow = word_size ≤ n
Within n m out_of_fuel = ⊥

module _ (n m : ℕ) where
  Within-put :
      (w : Bytes) (c : ℕ) (k : Bytes → Scan (Bytes × Bytes))
      → length w < n
      → ((w' : Bytes) → length w' ≡ length w + 1 → Within n m (k w'))
      → Within n m (put w c >>= k)
  unfolding put
  Within-put w c k h next = elim (Bool-cases (ltb (length w) word_size)) [
    | inl e ↦ rw (e, Within) (next (w ++ c ∷ []) (length-append w (c ∷ [])))
    | inr e ↦ rw (e, Within) (ground arith)
  ]

  single_quote-Within :
      (w cs : Bytes) → length w + length cs ≤ n → length cs ≤ m → Within n m (single_quote w cs)
  unfolding single_quote
  single_quote-Within w [] h k = tt
  single_quote-Within w (c ∷ cs) h k = elim (Bool-cases (c == b'\'')) [
    | inl e ↦ rw (e, Within) (omega arith)
    | inr e ↦
        rw (e, Within)
          (Within-put w c _ (omega arith)
            λ w' g. single_quote-Within w' cs (omega arith) (omega arith))
  ]

  backslash_quote-Within :
      (w cs : Bytes) → length w + length cs ≤ n → length cs ≤ m → Within n m (backslash_quote w cs)
  unfolding backslash_quote
  backslash_quote-Within w [] h k = tt
  backslash_quote-Within w (c ∷ cs) h k = Within-put w c _ (omega arith) (λ w' g. omega arith)

  double_quote-Within :
      (w cs : Bytes) → length w + length cs ≤ n → length cs ≤ m → Within n m (double_quote w cs)
  unfolding double_quote
  double_quote-Within w [] h k = tt
  double_quote-Within w (c ∷ []) h k = elim (Bool-cases (c == b'"')) [
    | inl e ↦ rw (e, Within) (omega arith)
    | inr e ↦
        rw (e, Within)
          (elim (Bool-cases (c == b'\\')) [
            | inl e' ↦ rw (e', Within) tt
            | inr e' ↦ rw (e', Within) (Within-put w c _ (omega arith) (λ w' g. tt))
          ])
  ]
  double_quote-Within w (c ∷ d ∷ cs) h k = elim (Bool-cases (c == b'"')) [
    | inl e ↦ rw (e, Within) (omega arith)
    | inr e ↦
        rw (e, Within)
          (elim (Bool-cases (c == b'\\')) [
            | inl e' ↦
                rw (e', Within)
                  (elim (Bool-cases (d == b'"' || d == b'\\')) [
                    | inl e'' ↦
                        rw (e'', Within)
                          (Within-put w d _ (omega arith)
                            λ w' g. double_quote-Within w' cs (omega arith) (omega arith))
                    | inr e'' ↦
                        rw (e'', Within)
                          (Within-put w b'\\' _ (omega arith) λ v g.
                            Within-put v d _ (omega arith)
                              λ w' g'. double_quote-Within w' cs (omega arith) (omega arith))
                  ])
            | inr e' ↦
                rw (e', Within)
                  (Within-put w c _ (omega arith)
                    λ w' g. double_quote-Within w' (d ∷ cs) (omega arith) (omega arith))
          ])
  ]

  pub read_piece-Within :
      (w : Bytes) (c : ℕ) (cs : Bytes)
      → length w + suc (length cs) ≤ n
      → length cs ≤ m
      → Within n m (read_piece w c cs)
  unfolding read_piece
  read_piece-Within w c cs h k = elim (Bool-cases (c == b'\\')) [
    | inl e ↦ rw (e, Within) (backslash_quote-Within w cs (omega arith) k)
    | inr e ↦
        rw (e, Within)
          (elim (Bool-cases (c == b'"')) [
            | inl e' ↦ rw (e', Within) (double_quote-Within w cs (omega arith) k)
            | inr e' ↦
                rw (e', Within)
                  (elim (Bool-cases (c == b'\'')) [
                    | inl e'' ↦ rw (e'', Within) (single_quote-Within w cs (omega arith) k)
                    | inr e'' ↦
                        rw (e'', Within) (Within-put w c _ (omega arith) (λ w' g. omega arith))
                  ])
          ])
  ]

  end_word-Within :
      (w cs : Bytes) → length w + length cs ≤ n → length cs ≤ m → Within n m (end_word w cs)
  unfolding end_word
  end_word-Within w cs h k = elim (Bool-cases (ltb (length w) word_size)) [
    | inl e ↦ rw (e, Within) (omega arith)
    | inr e ↦ rw (e, Within) (ground arith)
  ]

-- A scan that is bounded, and a continuation that is bounded from wherever the scan ends.
pub Within-bind :
    (n m m' : ℕ) (r : Scan (Bytes × Bytes)) (k : Bytes × Bytes → Scan (Bytes × Bytes))
    → Within n m r
    → ((p : Bytes × Bytes) → length p.0 + length p.1 ≤ n → length p.1 ≤ m → Within n m' (k p))
    → Within n m' (r >>= k)
Within-bind n m m' (ok p) k h next = next p h.0 h.1
Within-bind n m m' invalid k h next = tt
Within-bind n m m' overflow k h next = h
Within-bind n m m' out_of_fuel k h next = absurd h

-- With more rounds than bytes the loop over a word ends, inside the buffer.
pub read_word-Within :
    (f n m : ℕ) (w cs : Bytes)
    → length cs < f
    → length w + length cs ≤ n
    → length cs ≤ m
    → Within n m (read_word f w cs)
unfolding read_word
read_word-Within zero n m w cs f h k = absurd (omega arith)
read_word-Within (suc f) n m w [] g h k = end_word-Within n m w [] h k
read_word-Within (suc f) n m w (c ∷ cs) g h k =
    elim (Bool-cases (not (is_space c) && not (is_special c))) [
      | inl e ↦
          rw (e, Within)
            (Within-bind n (length cs) m (read_piece w c cs) _
              (read_piece-Within n (length cs) w c cs h (omega arith))
              λ p a b. read_word-Within f n m p.0 p.1 (omega arith) a (omega arith))
      | inr e ↦ rw (e, Within) (end_word-Within n m w (c ∷ cs) h k)
    ]
