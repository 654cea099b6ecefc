-- ===== src/Main/Turns.antt =====
-- What a turn of the main loop of c-shell/src/main.c does with its line.
use c_shell.Base.{
  ℕ, ◌<◌, ◌≡◌, refl, ◌⊎◌, inl, inr, Bool, true, false, List, [], ◌∷◌, Option, some, none, Bytes,
  codes, str_eq_sound, length, Bool-cases, arith,
}
use c_shell.Lexer.{Token, Scan, ok, invalid, overflow, out_of_fuel, word_size, lexing}
use c_shell.Lexer.Bounds.{Lexed, lexing-Lexed}
use c_shell.Parser.{parsing}
use c_shell.Parser.Grammar.{StartsWord, IsLine, parsing-IsLine}
use c_shell.Main.{
  Command, hop, reveal, peek, locate, activities, resume, ping, spy, snoop, sequence, dispatch,
  Turn, refused, blank, syntax_error, broken, runs, first_value, check_tokens, lexed_turn,
  main_turn,
}

-- The name of a built-in command.
abbrev pub name_of : Command → Option Bytes
name_of hop = some (codes "hop")
name_of reveal = some (codes "reveal")
name_of peek = some (codes "peek")
name_of locate = some (codes "locate")
name_of activities = some (codes "activities")
name_of resume = some (codes "resume")
name_of ping = some (codes "ping")
name_of spy = some (codes "spy")
name_of snoop = some (codes "snoop")
name_of sequence = none

abbrev pub IsName : Bytes → Option Bytes → Type 0
IsName v none = Unit
IsName v (some n) = v ≡ n

dispatch-IsName : (v : Bytes) → IsName v (name_of (dispatch v))
unfolding dispatch
dispatch-IsName v = ground (
  arith,
  str_eq_sound v (codes "hop"),
  str_eq_sound v (codes "reveal"),
  str_eq_sound v (codes "peek"),
  str_eq_sound v (codes "locate"),
  str_eq_sound v (codes "activities"),
  str_eq_sound v (codes "resume"),
  str_eq_sound v (codes "ping"),
  str_eq_sound v (codes "spy"),
  str_eq_sound v (codes "snoop"),
)

-- What a turn says of its line.
abbrev pub Means : Bytes → Turn → Type 0
Means line refused = (ts : List Token) × (lexing [] line ≡ ok (false, ts))
Means line blank = lexing [] line ≡ ok (true, [])
Means line syntax_error = (ts : List Token) × (lexing [] line ≡ ok (true, ts)) × (IsLine ts → ⊥)
Means line broken = ⊥
Means line (runs c ts) =
    (lexing [] line ≡ ok (true, ts))
    × IsLine ts
    × StartsWord ts
    × IsName (first_value ts) (name_of c)

StartsWord-begins :
    (t : Token) (ts : List Token)
    → (◌≡◌ {A = List Token} (t ∷ ts) []) ⊎ StartsWord (t ∷ ts)
    → StartsWord (t ∷ ts)
StartsWord-begins t ts (inl e) = absurd (cc)
StartsWord-begins t ts (inr s) = s

clash : {b : Bool} → b ≡ false → b ≡ true → ⊥
clash f t = cc

check_tokens-Means :
    (line : Bytes) (ts : List Token) → lexing [] line ≡ ok (true, ts) → Means line (check_tokens ts)
check_tokens-Means line [] h = h
check_tokens-Means line (t ∷ ts) h = elim (Bool-cases (parsing (t ∷ ts))) [
  | inl accepted ↦
      let l = (parsing-IsLine (t ∷ ts)).0 accepted in
      rw accepted (h, l, StartsWord-begins t ts l.begins, dispatch-IsName t.value)
  | inr rejected ↦ rw rejected (t ∷ ts, h, λ l. clash rejected ((parsing-IsLine (t ∷ ts)).1 l))
]

lexed_turn-Means :
    (line : Bytes) (n k : ℕ) (r : Scan (Bool × List Token))
    → lexing [] line ≡ r
    → Lexed n k r
    → Means line (lexed_turn r)
lexed_turn-Means line n k (ok (true, ts)) h l = check_tokens-Means line ts h
lexed_turn-Means line n k (ok (false, ts)) h l = (ts, h)
lexed_turn-Means line n k invalid h l = l
lexed_turn-Means line n k overflow h l = l
lexed_turn-Means line n k out_of_fuel h l = l

-- A turn on a line of at most 1023 bytes: it is refused by the lexer, or has no token, or is no line of
-- the grammar, or is one and goes to a command, a built-in one only under its own name; nothing is
-- written outside the lexer's buffer.
pub main_turn-Means : (line : Bytes) → length line < word_size → Means line (main_turn line)
unfolding main_turn
main_turn-Means line h =
    lexed_turn-Means line (length line) (length line) (lexing [] line) refl (lexing-Lexed line h)
