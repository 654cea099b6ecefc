-- ===== src/Lexer.antt =====
-- The lexer of c-shell/src/lexer.c. `line + pos` is the rest of the line, `word[0 .. word_pos)` the
-- word read so far. A write past the end of `word` is the outcome `overflow`.
pub mod Words
pub mod Bounds
pub mod RoundTrip
use c_shell.Base.{
  ℕ, zero, suc, Bool, true, false, not, ◌&&◌, ◌||◌, List, [], ◌∷◌, ◌++◌, Option, some, none, ◌==◌,
  ltb, length, if◌then◌else◌, Bytes, codes,
}

-- `enum Token_type`
pub data TokenType : Type 0 where
  op_pipe op_amp op_semi op_lt op_gt op_gtgt word : TokenType

-- `struct token`; the `next` links are the list's.
pub record Token : Type 0 where
  pub kind : TokenType
  pub value : Bytes

-- The result of scanning: `invalid` is a return of 0, `overflow` a write outside `word[1024]`, and
-- `out_of_fuel` a loop that has used up the rounds it was given.
pub data Scan {ℓ} (A : Type ℓ) : Type ℓ where
  ok : A → Scan A
  invalid overflow out_of_fuel : Scan A

infixl 5 ◌>>=◌
abbrev pub ◌>>=◌ {ℓ κ} : {A : Type ℓ} {B : Type κ} → Scan A → (A → Scan B) → Scan B
ok a >>= f = f a
invalid >>= f = invalid
overflow >>= f = overflow
out_of_fuel >>= f = out_of_fuel

-- `char word[1024]`
abbrev pub word_size : ℕ
word_size = 1024

-- `word[word_pos++] = c`
unfoldable pub put : Bytes → ℕ → Scan Bytes
put w c = if ltb (length w) word_size then ok (w ++ c ∷ []) else overflow

pub is_space : ℕ → Bool
is_space c = c == b' ' || c == b'\t' || c == b'\n' || c == b'\r'

pub is_special : ℕ → Bool
is_special c = c == b'|' || c == b'&' || c == b'>' || c == b'<' || c == b';'

-- The quoting routines are entered behind the opening character, and return the word and the
-- rest of the line.
unfoldable pub backslash_quote : Bytes → Bytes → Scan (Bytes × Bytes)
unfolding put
backslash_quote w [] = invalid
backslash_quote w (c ∷ cs) = do w' ← put w c; ok (w', cs)

unfoldable pub single_quote : Bytes → Bytes → Scan (Bytes × Bytes)
unfolding put
single_quote w [] = invalid
single_quote w (c ∷ cs) = elim (c == b'\'') [
  | true ↦ ok (w, cs)
  | false ↦ do w' ← put w c; single_quote w' cs
]

unfoldable pub double_quote : Bytes → Bytes → Scan (Bytes × Bytes)
unfolding put
double_quote w [] = invalid
double_quote w (c ∷ []) =
    if c == b'"' then ok (w, []) else if c == b'\\' then invalid else (put w c >>= λ _. invalid)
double_quote w (c ∷ d ∷ cs) = elim (c == b'"') [
  | true ↦ ok (w, d ∷ cs)
  | false ↦ elim (c == b'\\') [
    | true ↦ elim (d == b'"' || d == b'\\') [
      | true ↦ do w' ← put w d; double_quote w' cs
      | false ↦ do v ← put w b'\\'; w' ← put v d; double_quote w' cs
    ]
    | false ↦ do w' ← put w c; double_quote w' (d ∷ cs)
  ]
]

-- One turn of the loop over a word, at the character `c` with `cs` behind it.
unfoldable pub read_piece : Bytes → ℕ → Bytes → Scan (Bytes × Bytes)
unfolding put
read_piece w c cs =
    if c == b'\\'
    then backslash_quote w cs
    else if c == b'"'
    then double_quote w cs
    else if c == b'\''
    then single_quote w cs
    else (do w' ← put w c; ok (w', cs))

-- `word[word_pos] = '\0'`
unfoldable pub end_word : Bytes → Bytes → Scan (Bytes × Bytes)
end_word w cs = if ltb (length w) word_size then ok (w, cs) else overflow

-- The loop over a word, up to an unquoted space or operator.
unfoldable pub read_word : ℕ → Bytes → Bytes → Scan (Bytes × Bytes)
unfolding is_space is_special
read_word zero w cs = out_of_fuel
read_word (suc f) w [] = end_word w []
read_word (suc f) w (c ∷ cs) = elim (not (is_space c) && not (is_special c)) [
  | true ↦ read_piece w c cs >>= λ r. read_word f r.0 r.1
  | false ↦ end_word w (c ∷ cs)
]

abbrev op : TokenType → Bytes → Token
op k v = record { kind = k; value = v }

-- At `>`: one more `>` makes the operator `>>`.
unfoldable pub greater : Bytes → Token × Bytes
greater [] = (op op_gt (codes ">"), [])
greater (d ∷ cs) =
    if d == b'>' then (op op_gtgt (codes ">>"), cs) else (op op_gt (codes ">"), d ∷ cs)

-- The operator that starts at `c`, and the rest behind it.
unfoldable pub operator : ℕ → Bytes → Option (Token × Bytes)
unfolding greater
operator c cs =
    if c == b'|'
    then some (op op_pipe (codes "|"), cs)
    else if c == b'&'
    then some (op op_amp (codes "&"), cs)
    else if c == b';'
    then some (op op_semi (codes ";"), cs)
    else if c == b'<'
    then some (op op_lt (codes "<"), cs)
    else if c == b'>'
    then some (greater cs)
    else none

-- `add_token` on the list that `Token` heads: the new token goes behind the last one.
unfoldable pub add_token : List Token → TokenType → Bytes → List Token
add_token ts k v = ts ++ op k v ∷ []

-- Behind the loop over a word: a refused quotation prints the message and returns 0.
abbrev pub on_word :
    List Token
    → Scan (Bytes × Bytes)
    → (Bytes × Bytes → Scan (Bool × List Token))
    → Scan (Bool × List Token)
on_word ts (ok p) next = next p
on_word ts invalid next = ok (false, ts)
on_word ts overflow next = overflow
on_word ts out_of_fuel next = out_of_fuel

-- The loop of `lexing`. The value is the returned flag with the tokens added so far, which stay
-- in the list when a word is refused.
unfoldable pub lex_loop : ℕ → List Token → Bytes → Scan (Bool × List Token)
unfolding is_space add_token
lex_loop zero ts cs = out_of_fuel
lex_loop (suc f) ts [] = ok (true, ts)
lex_loop (suc f) ts (c ∷ cs) = elim (is_space c) [
  | true ↦ lex_loop f ts cs
  | false ↦ elim (operator c cs) [
    | some (t, rest) ↦ lex_loop f (add_token ts t.kind t.value) rest
    | none ↦
        on_word ts (read_word (suc (suc (length cs))) [] (c ∷ cs))
          λ p. lex_loop f (add_token ts word p.0) p.1
  ]
]

unfoldable pub lexing : List Token → Bytes → Scan (Bool × List Token)
lexing ts line = lex_loop (suc (length line)) ts line
