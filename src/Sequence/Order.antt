-- ===== src/Sequence/Order.antt =====
-- What `sequence_command` (c-shell/src/sequence.c) does with a line of jobs.
use c_shell.Base.{List, [], ◌∷◌}
use c_shell.Lexer.{Token}
use c_shell.Sequence.Script.{Script}

NonNil : List Token → Type 0
NonNil [] = ⊥
NonNil (t ∷ ts) = Unit
