-- ===== src/Parser.antt =====
-- The syntax check of c-shell/src/parser.c. `current`, which every routine moves, is the list of the
-- tokens ahead; each routine returns its flag with the tokens it has left.
pub mod Grammar
use c_shell.Base.{Bool, true, false, List, [], ◌∷◌, if◌then◌else◌}
use c_shell.Lexer.{Token, TokenType, op_pipe, op_amp, op_semi, op_lt, op_gt, op_gtgt, word}

unfoldable mutual
  pub parse_arg : List Token → Bool × List Token
  parse_arg [] = (true, [])
  parse_arg (t ∷ ts) = elim t.kind [
    | word ↦ parse_arg ts
    | op_lt ↦ parse_tgt ts
    | op_gt ↦ parse_tgt ts
    | op_gtgt ↦ parse_tgt ts
    | op_pipe ↦ parse_cmd ts
    | op_semi ↦ parse_cmd ts
    | op_amp ↦ parse_bg ts
  ]

  pub parse_cmd : List Token → Bool × List Token
  parse_cmd [] = (false, [])
  parse_cmd (t ∷ ts) = elim t.kind [ word ↦ parse_arg ts | _ ↦ (false, t ∷ ts) ]

  pub parse_tgt : List Token → Bool × List Token
  parse_tgt [] = (false, [])
  parse_tgt (t ∷ ts) = elim t.kind [ word ↦ parse_arg ts | _ ↦ (false, t ∷ ts) ]

  pub parse_bg : List Token → Bool × List Token
  parse_bg [] = (true, [])
  parse_bg (t ∷ ts) = elim t.kind [ word ↦ parse_arg ts | _ ↦ (false, t ∷ ts) ]

unfoldable pub parse_line : List Token → Bool × List Token
unfolding parse_arg
parse_line [] = (true, [])
parse_line (t ∷ ts) = elim t.kind [ word ↦ parse_arg ts | _ ↦ (false, t ∷ ts) ]

abbrev at_end : List Token → Bool
at_end [] = true
at_end (t ∷ ts) = false

unfoldable pub parsing : List Token → Bool
unfolding parse_line
parsing ts = let r = parse_line ts in if r.0 then at_end r.1 else false
