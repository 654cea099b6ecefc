-- ===== src/Main.antt =====
-- The main loop of c-shell/src/main.c: reading a line, the end of input, lexing, the syntax check and the
-- choice of the command. What stdin holds has no NUL in it.
pub mod Turns
pub mod Session
pub mod Written
use c_shell.Base.{
  ℕ, zero, suc, Bool, true, false, List, [], ◌∷◌, ◌++◌, Option, some, none, ◌==◌, if◌then◌else◌,
  Bytes, codes, str_eq, length,
}
use c_shell.Lexer.{Token, Scan, ok, invalid, overflow, out_of_fuel, lexing}
use c_shell.Parser.{parsing}
use c_shell.Sequence.{World, sequence_command}
use c_shell.Command.Exec.{Launch}
use c_shell.Jobs.{Table}
use c_shell.Terminal.{EofResult, handle_eof, reset_eof_state}

-- The function that a line is given to.
pub data Command : Type 0 where
  hop reveal peek locate activities resume ping spy snoop sequence : Command

-- The chain of `strcmp(Token->value, ...)`.
unfoldable pub dispatch : Bytes → Command
dispatch v =
    if str_eq v (codes "hop")
    then hop
    else if str_eq v (codes "reveal")
    then reveal
    else if str_eq v (codes "peek")
    then peek
    else if str_eq v (codes "locate")
    then locate
    else if str_eq v (codes "activities")
    then activities
    else if str_eq v (codes "resume")
    then resume
    else if str_eq v (codes "ping")
    then ping
    else if str_eq v (codes "spy")
    then spy
    else if str_eq v (codes "snoop")
    then snoop
    else sequence

-- What one turn of the loop does with a line: the lexer refuses it, there is no token, the syntax
-- check refuses it, or a command gets the tokens. `broken` is a write outside the lexer's buffer or
-- a lexer without an end.
pub data Turn : Type 0 where
  refused blank syntax_error broken : Turn
  runs : Command → List Token → Turn

abbrev pub first_value : List Token → Bytes
first_value [] = []
first_value (t ∷ ts) = t.value

abbrev pub check_tokens : List Token → Turn
check_tokens [] = blank
check_tokens (t ∷ ts) = if parsing (t ∷ ts) then runs (dispatch t.value) (t ∷ ts) else syntax_error

abbrev pub lexed_turn : Scan (Bool × List Token) → Turn
lexed_turn (ok r) = if r.0 then check_tokens r.1 else refused
lexed_turn invalid = broken
lexed_turn overflow = broken
lexed_turn out_of_fuel = broken

-- A line without its newline; `free_tokens` has emptied the list before.
unfoldable pub main_turn : Bytes → Turn
unfolding dispatch lexing parsing
main_turn line = lexed_turn (lexing [] line)

-- `drain_background_notifications` at the end of a turn is passed over by `continue`.
abbrev pub drains : Turn → Bool
drains refused = false
drains blank = false
drains syntax_error = true
drains broken = false
drains (runs c ts) = true

-- What a turn starts through `sequence_command`.
abbrev pub launches : World → Turn → List Launch
launches world refused = []
launches world blank = []
launches world syntax_error = []
launches world broken = []
launches world (runs sequence ts) = (sequence_command world ts []).1
launches world (runs _ ts) = []

-- `input[strcspn(input, "\n")] = '\0'`
unfoldable pub cut_newline : Bytes → Bytes
cut_newline [] = []
cut_newline (c ∷ cs) = let rest = cut_newline cs in if c == b'\n' then [] else c ∷ rest

-- `fgets` with `room` bytes left for what it reads: up to a newline, which it takes too.
unfoldable pub fgets : ℕ → Bytes → Bytes × Bytes
fgets room [] = ([], [])
fgets zero (c ∷ cs) = ([], c ∷ cs)
fgets (suc room) (c ∷ cs) =
    let rest = fgets room cs in if c == b'\n' then (c ∷ [], cs) else (c ∷ rest.0, rest.1)

-- `input[1024]`
abbrev pub input_room : ℕ
input_room = 1023

-- What a round of the loop comes to: a turn on a line, or at the end of input the warning, or the
-- groups that are sent SIGHUP as the shell leaves.
pub data Event : Type 0 where
  turn : Turn → Event
  warned : Event
  left : List ℕ → Event

-- `if(handle_eof()) break; clearerr(stdin); continue;`
abbrev pub after_eof :
    EofResult → List Event → (Bool → List Event → Option (List Event)) → Option (List Event)
after_eof r log next =
    if r.leaves then some (log ++ left r.hung_up ∷ []) else next r.previous_eof (log ++ warned ∷ [])

-- The loop on what stdin gives up to each end of input; behind the last one the end stays. The job table
-- is what the events so far and the signals have left of it; `none` if the rounds given do not lead out
-- of the loop.
unfoldable pub main_loop :
    (List Event → Table) → ℕ → Bool → List Event → List Bytes → Option (List Event)
unfolding main_turn cut_newline fgets handle_eof
main_loop table zero previous_eof log stdin = none
main_loop table (suc rounds) previous_eof log [] =
    after_eof (handle_eof (table log) previous_eof) log
      (λ previous log'. main_loop table rounds previous log' [])
main_loop table (suc rounds) previous_eof log ([] ∷ later) =
    after_eof (handle_eof (table log) previous_eof) log
      (λ previous log'. main_loop table rounds previous log' later)
main_loop table (suc rounds) previous_eof log ((c ∷ cs) ∷ later) =
    let r = fgets input_room (c ∷ cs) in
    main_loop table rounds (reset_eof_state previous_eof)
      (log ++ turn (main_turn (cut_newline r.0)) ∷ []) (r.1 ∷ later)
