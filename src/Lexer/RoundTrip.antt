-- ===== src/Lexer/RoundTrip.antt =====
-- Every token list that the shell could mean can be written as a line that `lexing` reads back:
-- a word in double quotes, with a backslash before each `"` and each backslash.
use c_shell.Base.{
  ℕ, zero, suc, ◌+◌, ◌*◌, ◌≤◌, ◌<◌, ◌≡◌, refl, ap, ◌∙◌, true, false, ◌||◌, List, [], ◌∷◌, ◌++◌,
  ◌==◌, length, length-append, append_assoc, append-nil, if◌then◌else◌, Bytes, codes, arith,
  Bool-cases, inl, inr,
}
use c_shell.Lexer.{
  Token, TokenType, op_pipe, op_amp, op_semi, op_lt, op_gt, op_gtgt, word, ok, put, word_size,
  double_quote, read_piece, end_word, read_word, operator, add_token, lex_loop, lexing,
}

unfoldable pub escape : Bytes → Bytes
escape [] = []
escape (c ∷ cs) = if c == b'"' || c == b'\\' then b'\\' ∷ c ∷ escape cs else c ∷ escape cs

-- The text of an operator, and of a word behind its opening quote.
unfoldable pub spelling : TokenType → Bytes
spelling op_pipe = codes "|"
spelling op_amp = codes "&"
spelling op_semi = codes ";"
spelling op_lt = codes "<"
spelling op_gt = codes ">"
spelling op_gtgt = codes ">>"
spelling word = []

unfoldable pub write : TokenType → Bytes → Bytes → Bytes
unfolding escape spelling
write word v rest = b'"' ∷ (escape v ++ b'"' ∷ b' ' ∷ rest)
write k v rest = spelling k ++ b' ' ∷ rest

-- A line: each token with a blank behind it.
unfoldable pub render : List Token → Bytes
unfolding write
render [] = []
render (t ∷ ts) = write t.kind t.value (render ts)

-- A token that the lexer can make: an operator carries its own text, a word fits the buffer.
abbrev pub Makes : TokenType → Bytes → Type 0
Makes word v = length v < word_size
Makes op_pipe v = v ≡ codes "|"
Makes op_amp v = v ≡ codes "&"
Makes op_semi v = v ≡ codes ";"
Makes op_lt v = v ≡ codes "<"
Makes op_gt v = v ≡ codes ">"
Makes op_gtgt v = v ≡ codes ">>"

abbrev pub AllMake : List Token → Type 0
AllMake [] = Unit
AllMake (t ∷ ts) = Makes t.kind t.value × AllMake ts

put_fits : (w : Bytes) (c : ℕ) → length w < word_size → put w c ≡ ok (w ++ c ∷ [])
unfolding put
put_fits w c h = ground arith

double_quote_plain :
    (w : Bytes) (c : ℕ) (cs : Bytes)
    → (c == b'"' || c == b'\\') ≡ false
    → length w < word_size
    → double_quote w (c ∷ cs) ≡ double_quote (w ++ c ∷ []) cs
unfolding double_quote
double_quote_plain w c [] e h = ground (arith, put_fits w c)
double_quote_plain w c (d ∷ cs) e h = ground (arith, put_fits w c)

double_quote_escaped :
    (w : Bytes) (d : ℕ) (cs : Bytes)
    → (d == b'"' || d == b'\\') ≡ true
    → length w < word_size
    → double_quote w (b'\\' ∷ d ∷ cs) ≡ double_quote (w ++ d ∷ []) cs
unfolding double_quote
double_quote_escaped w d cs e h = ground (arith, put_fits w d)

double_quote_end : (w rest : Bytes) → double_quote w (b'"' ∷ rest) ≡ ok (w, rest)
unfolding double_quote
double_quote_end w [] = refl
double_quote_end w (d ∷ cs) = refl

double_quote-escape :
    (w v rest : Bytes)
    → length w + length v ≤ word_size
    → double_quote w (escape v ++ b'"' ∷ rest) ≡ ok (w ++ v, rest)
unfolding escape
double_quote-escape w [] rest h = rw append-nil (double_quote_end w rest)
double_quote-escape w (c ∷ v) rest h =
    let ih =
      rw append_assoc at
        (double_quote-escape (w ++ c ∷ []) v rest (omega (arith, length-append w (c ∷ [])))) in
    elim (Bool-cases (c == b'"' || c == b'\\')) [
      | inl e ↦ rw e (double_quote_escaped w c _ e (omega arith) ∙ ih)
      | inr e ↦ rw e (double_quote_plain w c _ e (omega arith) ∙ ih)
    ]

read_word_end :
    (f : ℕ) (w rest : Bytes)
    → length w < word_size
    → read_word (suc f) w (b' ' ∷ rest) ≡ ok (w, b' ' ∷ rest)
unfolding read_word end_word
read_word_end f w rest h = ground arith

read_word-escape :
    (f : ℕ) (v rest : Bytes)
    → length v < word_size
    → read_word (suc (suc f)) [] (b'"' ∷ (escape v ++ b'"' ∷ b' ' ∷ rest)) ≡ ok (v, b' ' ∷ rest)
unfolding read_word read_piece
read_word-escape f v rest h =
    rw (double_quote-escape [] v (b' ' ∷ rest) (omega arith)) (read_word_end f v rest h)

-- Two turns of the loop take a written token and the blank behind it.
lex_loop-write :
    (f : ℕ) (ts : List Token) (k : TokenType) (v rest : Bytes)
    → Makes k v
    → lex_loop (suc (suc f)) ts (write k v rest) ≡ lex_loop f (add_token ts k v) rest
unfolding lex_loop operator write
lex_loop-write f ts word v rest h = rw (read_word-escape _ v rest h)
lex_loop-write f ts op_gt v rest h = rw h
lex_loop-write f ts k v rest h = rw h

lex_loop_end : (f : ℕ) (ts : List Token) → lex_loop (suc f) ts [] ≡ ok (true, ts)
unfolding lex_loop
lex_loop_end f ts = refl

add_token-append :
    (us : List Token) (t : Token) (ts : List Token)
    → add_token us t.kind t.value ++ ts ≡ us ++ t ∷ ts
unfolding add_token
add_token-append us t ts = append_assoc us (t ∷ []) ts

lex_loop-render :
    (f : ℕ) (us ts : List Token)
    → AllMake ts
    → 2 * length ts < f
    → lex_loop f us (render ts) ≡ ok (true, us ++ ts)
unfolding render
lex_loop-render zero us ts m h = absurd (omega arith)
lex_loop-render (suc f) us [] m h = rw append-nil (lex_loop_end f us)
lex_loop-render (suc zero) us (t ∷ ts) m h = absurd (omega arith)
lex_loop-render (suc (suc f)) us (t ∷ ts) m h =
    lex_loop-write f us t.kind t.value (render ts) m.0
    ∙ lex_loop-render f (add_token us t.kind t.value) ts m.1 (omega arith)
    ∙ ap (λ vs. ok (true, vs)) (add_token-append us t ts)

length-write : (k : TokenType) (v rest : Bytes) → 2 + length rest ≤ length (write k v rest)
unfolding write
length-write word v rest = omega (arith, length-append (escape v) (b'"' ∷ b' ' ∷ rest))
length-write op_gt v rest = omega arith
length-write k v rest = omega arith

length-render : (ts : List Token) → 2 * length ts ≤ length (render ts)
unfolding render
length-render [] = omega arith
length-render (t ∷ ts) = omega (arith, length-write t.kind t.value (render ts), length-render ts)

-- Whatever the words hold (blanks, quotes, operators, nothing at all), the line that `render` writes
-- for a list of tokens, each an operator with its own text or a word of at most 1023 bytes, is read
-- back as that list, behind the tokens that were there.
pub lexing-render : (us ts : List Token) → AllMake ts → lexing us (render ts) ≡ ok (true, us ++ ts)
unfolding lexing
lexing-render us ts m =
    lex_loop-render (suc (length (render ts))) us ts m (omega (arith, length-render ts))
