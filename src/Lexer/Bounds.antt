-- ===== src/Lexer/Bounds.antt =====
-- The word buffer of `lexing` is never overrun on a line that `fgets` can return, and its loops end.
use c_shell.Base.{
  ℕ, zero, suc, ◌+◌, ◌≤◌, ◌<◌, ◌≡◌, Bool, false, List, [], ◌∷◌, ◌++◌, Option, some, none, length,
  length-append, Bytes, arith, Bool-cases, Option-cases, inl, inr,
}
use c_shell.Lexer.{
  Token, TokenType, word, on_word, Scan, ok, invalid, overflow, out_of_fuel, word_size, read_piece,
  read_word, operator, add_token, lex_loop, lexing, is_space, is_special,
}
use c_shell.Lexer.Words.{Within, read_piece-Within, Within-bind, read_word-Within}

-- The bytes that a list of tokens holds.
abbrev pub bytes : List Token → ℕ
bytes [] = 0
bytes (t ∷ ts) = length t.value + bytes ts

bytes-append : (ts us : List Token) → bytes (ts ++ us) ≡ bytes ts + bytes us
bytes-append [] us = omega arith
bytes-append (t ∷ ts) us = omega (arith, bytes-append ts us)

-- What an operator takes from the line, it holds.
abbrev Takes : ℕ → Option (Token × Bytes) → Type 0
Takes n none = Unit
Takes n (some r) =
    (length r.0.value + length r.1 ≤ suc n) × (length r.1 ≤ n) × (1 ≤ length r.0.value)

operator-Takes : (c : ℕ) (cs : Bytes) → Takes (length cs) (operator c cs)
unfolding operator
operator-Takes c [] = ground arith
operator-Takes c (d ∷ cs) = ground arith

operator-is_special : (c : ℕ) (cs : Bytes) → operator c cs ≡ none → is_special c ≡ false
unfolding operator is_special
operator-is_special c cs h = ground arith

-- Away from spaces and operators the loop over a word makes progress.
read_word-shrinks :
    (f : ℕ) (c : ℕ) (cs : Bytes)
    → is_space c ≡ false
    → is_special c ≡ false
    → suc (length cs) < f
    → Within (suc (length cs)) (length cs) (read_word f [] (c ∷ cs))
unfolding read_word
read_word-shrinks zero c cs a b h = absurd (omega arith)
read_word-shrinks (suc f) c cs a b h =
    rw (a, b, Within)
      (Within-bind (suc (length cs)) (length cs) (length cs) (read_piece [] c cs) _
        (read_piece-Within (suc (length cs)) (length cs) [] c cs (omega arith) (omega arith))
        λ p s t. read_word-Within f (suc (length cs)) (length cs) p.0 p.1 (omega arith) s t)

-- The lexer ran to its end without a write outside the buffer, its tokens hold at most `n` bytes,
-- and there are at most `k` of them.
abbrev pub Lexed : ℕ → ℕ → Scan (Bool × List Token) → Type 0
Lexed n k (ok r) = (bytes r.1 ≤ n) × (length r.1 ≤ k)
Lexed n k invalid = ⊥
Lexed n k overflow = ⊥
Lexed n k out_of_fuel = ⊥

Lexed-on_word :
    (n k m m' : ℕ) (ts : List Token) (r : Scan (Bytes × Bytes))
    (next : Bytes × Bytes → Scan (Bool × List Token))
    → Within m m' r
    → m < word_size
    → bytes ts ≤ n
    → length ts ≤ k
    → ((p : Bytes × Bytes) → length p.0 + length p.1 ≤ m → length p.1 ≤ m' → Lexed n k (next p))
    → Lexed n k (on_word ts r next)
Lexed-on_word n k m m' ts (ok p) next h lt a b step = step p h.0 h.1
Lexed-on_word n k m m' ts invalid next h lt a b step = (a, b)
Lexed-on_word n k m m' ts overflow next h lt a b step = absurd (omega arith)
Lexed-on_word n k m m' ts out_of_fuel next h lt a b step = h

bytes-add_token :
    (ts : List Token) (k : TokenType) (v : Bytes) → bytes (add_token ts k v) ≡ bytes ts + length v
unfolding add_token
bytes-add_token ts k v = omega (arith, bytes-append ts (record { kind = k; value = v } ∷ []))

length-add_token :
    (ts : List Token) (k : TokenType) (v : Bytes) → length (add_token ts k v) ≡ length ts + 1
unfolding add_token
length-add_token ts k v = length-append ts (record { kind = k; value = v } ∷ [])

ruleset added = (arith, bytes-add_token, length-add_token)

lex_loop-Lexed :
    (f n k : ℕ) (ts : List Token) (cs : Bytes)
    → length cs < f
    → length cs < word_size
    → bytes ts + length cs ≤ n
    → length ts + length cs ≤ k
    → Lexed n k (lex_loop f ts cs)
unfolding lex_loop
lex_loop-Lexed zero n k ts cs g h a b = absurd (omega arith)
lex_loop-Lexed (suc f) n k ts [] g h a b = omega arith
lex_loop-Lexed (suc f) n k ts (c ∷ cs) g h a b = elim (Bool-cases (is_space c)) [
  | inl e ↦
      rw (e, Lexed)
        (lex_loop-Lexed f n k ts cs (omega arith) (omega arith) (omega arith) (omega arith))
  | inr e ↦
      rw (e, Lexed)
        (elim (Option-cases (operator c cs)) [
          | inl e' ↦
              rw (e', Lexed)
                (Lexed-on_word n k (suc (length cs)) (length cs) ts _ _
                  (read_word-shrinks (suc (suc (length cs))) c cs e (operator-is_special c cs e')
                    (omega arith))
                  h (omega arith) (omega arith)
                  λ p s t.
                    lex_loop-Lexed f n k (add_token ts word p.0) p.1 (omega arith) (omega arith)
                      (omega added) (omega added))
          | inr (r, e') ↦
              let t = rw e' at (operator-Takes c cs) in
              rw (e', Lexed)
                (lex_loop-Lexed f n k (add_token ts r.0.kind r.0.value) r.1 (omega arith)
                  (omega arith) (omega added) (omega added))
        ])
]

-- On a line of at most 1023 bytes, which is what `fgets` reads into `input[1024]`, the lexer ends
-- and writes nothing outside `word[1024]`; whether it accepts or refuses the line, its tokens hold
-- no more bytes than the line, and there are no more of them than that.
pub lexing-Lexed :
    (line : Bytes) → length line < word_size → Lexed (length line) (length line) (lexing [] line)
unfolding lexing
lexing-Lexed line h =
    lex_loop-Lexed (suc (length line)) (length line) (length line) [] line (omega arith) h
      (omega arith) (omega arith)
