-- ===== src/Parser/Grammar.antt =====
-- What the recursive routines of parser.c accept, said of the places in a line.
use c_shell.Base.{◌≡◌, refl, ap, subst, ◌↔◌, ◌⊎◌, inl, Bool, true, List, [], ◌∷◌, ◌++◌, arith}
use c_shell.Lexer.{Token, TokenType, op_pipe, op_amp, op_semi, op_lt, op_gt, op_gtgt, word}
use c_shell.Parser.{parse_arg, parse_cmd, parse_tgt, parse_bg, parsing}

abbrev pub StartsWord : List Token → Type 0
StartsWord [] = ⊥
StartsWord (t ∷ ts) = t.kind ≡ word

-- What may stand behind a token: anything behind a word; the end or a word behind `&`; a word
-- behind every other operator.
abbrev pub Follows : TokenType → List Token → Type 0
Follows word ts = Unit
Follows op_amp ts = (ts ≡ []) ⊎ StartsWord ts
Follows op_gt ts = StartsWord ts
Follows op_pipe ts = StartsWord ts
Follows op_semi ts = StartsWord ts
Follows op_lt ts = StartsWord ts
Follows op_gtgt ts = StartsWord ts

-- A line of the shell: it is empty or starts with a word, and every token in it is followed by what
-- may follow it.
pub record IsLine (ts : List Token) : Type 0 where
  pub begins : (ts ≡ []) ⊎ StartsWord ts
  pub follows :
      (pre : List Token) (t : Token) (post : List Token)
      → ts ≡ pre ++ t ∷ post
      → Follows t.kind post

abbrev AllFollow : List Token → Type 0
AllFollow [] = Unit
AllFollow (t ∷ ts) = Follows t.kind ts × AllFollow ts

-- A routine that accepts leaves nothing, and every token it took is followed well.
abbrev Sound : List Token → Bool × List Token → Type 0
Sound ts r = r.0 ≡ true → AllFollow ts × (r.1 ≡ [])

abbrev SoundAtWord : List Token → Bool × List Token → Type 0
SoundAtWord ts r = r.0 ≡ true → StartsWord ts × AllFollow ts × (r.1 ≡ [])

mutual
  unfolding parse_arg

  parse_arg-Sound : (ts : List Token) → Sound ts (parse_arg ts)
  parse_arg-Sound [] h = (tt, refl)
  parse_arg-Sound (t ∷ ts) h =
      ground (arith, parse_arg-Sound ts, parse_cmd-Sound ts, parse_tgt-Sound ts, parse_bg-Sound ts)

  parse_cmd-Sound : (ts : List Token) → SoundAtWord ts (parse_cmd ts)
  parse_cmd-Sound [] h = cc
  parse_cmd-Sound (t ∷ ts) h = ground (arith, parse_arg-Sound ts)

  parse_tgt-Sound : (ts : List Token) → SoundAtWord ts (parse_tgt ts)
  parse_tgt-Sound [] h = cc
  parse_tgt-Sound (t ∷ ts) h = ground (arith, parse_arg-Sound ts)

  parse_bg-Sound :
      (ts : List Token)
      → (parse_bg ts).0 ≡ true
      → ((ts ≡ []) ⊎ StartsWord ts) × AllFollow ts × ((parse_bg ts).1 ≡ [])
  parse_bg-Sound [] h = (inl refl, tt, refl)
  parse_bg-Sound (t ∷ ts) h = ground (arith, parse_arg-Sound ts)

abbrev Complete : List Token → Bool × List Token → Type 0
Complete ts r = AllFollow ts → r ≡ (true, [])

mutual
  unfolding parse_arg

  parse_arg-Complete : (ts : List Token) → Complete ts (parse_arg ts)
  parse_arg-Complete [] h = refl
  parse_arg-Complete (t ∷ ts) h = ground (
    arith,
    parse_arg-Complete ts h.1,
    parse_cmd-Complete ts,
    parse_tgt-Complete ts,
    parse_bg-Complete ts,
  )

  parse_cmd-Complete : (ts : List Token) → StartsWord ts → Complete ts (parse_cmd ts)
  parse_cmd-Complete [] s h = absurd s
  parse_cmd-Complete (t ∷ ts) s h = ground (arith, parse_arg-Complete ts h.1)

  parse_tgt-Complete : (ts : List Token) → StartsWord ts → Complete ts (parse_tgt ts)
  parse_tgt-Complete [] s h = absurd s
  parse_tgt-Complete (t ∷ ts) s h = ground (arith, parse_arg-Complete ts h.1)

  parse_bg-Complete : (ts : List Token) → (ts ≡ []) ⊎ StartsWord ts → Complete ts (parse_bg ts)
  parse_bg-Complete [] s h = refl
  parse_bg-Complete (t ∷ ts) s h = ground (arith, parse_arg-Complete ts h.1)

AllFollow-at :
    (pre : List Token) (t : Token) (post : List Token)
    → AllFollow (pre ++ t ∷ post)
    → Follows t.kind post
AllFollow-at [] t post h = h.0
AllFollow-at (u ∷ pre) t post h = AllFollow-at pre t post h.1

AllFollow-all :
    (ts : List Token)
    → ((pre : List Token) (t : Token) (post : List Token)
        → ts ≡ pre ++ t ∷ post
        → Follows t.kind post)
    → AllFollow ts
AllFollow-all [] h = tt
AllFollow-all (u ∷ ts) h =
    (h [] u ts refl, AllFollow-all ts (λ pre t post e. h (u ∷ pre) t post (ap (◌∷◌ u) e)))

parse_line-Sound :
    (ts : List Token) → parsing ts ≡ true → ((ts ≡ []) ⊎ StartsWord ts) × AllFollow ts
unfolding parsing
parse_line-Sound [] h = (inl refl, tt)
parse_line-Sound (t ∷ ts) h = ground (arith, parse_arg-Sound ts)

parsing_complete : (ts : List Token) → (ts ≡ []) ⊎ StartsWord ts → AllFollow ts → parsing ts ≡ true
unfolding parsing
parsing_complete [] b h = refl
parsing_complete (t ∷ ts) b h = ground (arith, parse_arg-Complete ts h.1)

-- `parsing` accepts exactly the lines of the shell: those that are empty or start with a word, and in
-- which a word follows each of `|`, `;`, `<`, `>` and `>>`, and a word or the end follows each `&`.
pub parsing-IsLine : (ts : List Token) → (parsing ts ≡ true) ↔ IsLine ts
parsing-IsLine ts = (
  λ h.
      let s = parse_line-Sound ts h in
      record {
        begins = s.0;
        follows = λ pre t post e. AllFollow-at pre t post (subst AllFollow e s.1);
      },
  λ l. parsing_complete ts l.begins (AllFollow-all ts l.follows),
)
