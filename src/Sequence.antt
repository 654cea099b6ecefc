-- ===== src/Sequence.antt =====
-- `sequence_command` of c-shell/src/sequence.c.
pub mod Programs
pub mod Script
pub mod Runs
pub mod Order
use c_shell.Base.{
  ℕ, zero, suc, Bool, true, false, List, [], ◌∷◌, ◌++◌, Option, some, none, if◌then◌else◌,
}
use c_shell.Lexer.{Token, TokenType, op_semi, op_amp}
use c_shell.Command.{PipelineStage, has_pipeline, parse_pipeline}
use c_shell.Command.Resolve.{System}
use c_shell.Command.Exec.{
  Launch, invalid_syntax, run_pipeline_background, Ran, exec_command, exec_background_command,
}

-- The system as the shell finds it after the launches so far.
abbrev pub World : Type 0
World = List Launch → System

unfoldable pub background_pipeline : Option (List PipelineStage × ℕ) → List Launch
background_pipeline none = invalid_syntax ∷ []
background_pipeline (some r) = run_pipeline_background r.0 r.1 ∷ []

-- The branch at `&`.
unfoldable pub start_background : System → List Token → List Launch
unfolding background_pipeline
start_background sys start =
    if has_pipeline start
    then background_pipeline (parse_pipeline sys.calloc_ok start)
    else (exec_background_command sys start).1

-- One turn of the outer loop once `current` has come to a `;` or to the end: `next` goes on behind it.
abbrev pub after_command : Ran → List Launch → (List Launch → Ran) → Ran
after_command (zero, new) log next = next (log ++ new)
after_command (suc res, new) log next = (suc res, log ++ new)

-- The loops of `sequence_command`: `current` moves on from `start`, and the launches so far are `log`.
-- A `start` that is NULL ends the outer loop.
unfoldable pub sequence_loop : World → List Token → List Token → List Launch → Ran
unfolding start_background
sequence_loop world [] [] log = (0, log)
sequence_loop world (s ∷ start) [] log =
    after_command (exec_command (world log) (s ∷ start)) log (λ log'. (0, log'))
sequence_loop world start (t ∷ ts) log = elim t.kind [
  | op_semi ↦ after_command (exec_command (world log) start) log (sequence_loop world ts ts)
  | op_amp ↦ sequence_loop world ts ts (log ++ start_background (world log) start)
  | _ ↦ sequence_loop world start ts log
]

unfoldable pub sequence_command : World → List Token → List Launch → Ran
sequence_command world current log = sequence_loop world current current log
