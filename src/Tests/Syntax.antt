-- ===== src/Tests/Syntax.antt =====
-- The lexer, the parser and the command lines.
use c_shell.Base.{
  ◌≡◌, ◌↔◌, refl, true, false, List, [], ◌∷◌, ◌++◌, some, none, if◌then◌else◌, ◌||◌, Bytes, codes,
  str_eq, arith,
}
use c_shell.Lexer.{
  Token, op_pipe, op_semi, op_gt, op_gtgt, word, ok, double_quote, single_quote, backslash_quote,
  read_word, read_piece, end_word, operator, lex_loop, lexing,
}
use c_shell.Lexer.Bounds.{Lexed, lexing-Lexed}
use c_shell.Lexer.RoundTrip.{render, lexing-render}
use c_shell.Parser.{parsing}
use c_shell.Parser.Grammar.{IsLine, parsing-IsLine}
use c_shell.Command.{parsed, parse_redirects, parse_pipeline, is_output}
use c_shell.Command.Items.{
  Item, arg, input, output, token, tokens_of, args, inputs, outputs, IsPlain,
  parse_redirects-tokens_of,
}
use c_shell.Command.Pipes.{IsStage, stage_of, pipe_tokens, parse_pipeline-pipe_tokens}
use c_shell.Command.Resolve.{System}
use c_shell.Command.Quoted.{quoted_operator}
use c_shell.Sequence.Script.{IsScript, Script, last_amp, semi}

abbrev tok : Bytes → Token
tok v = token word v

-- echo "a b"'c' \| >> out
lexing_runs :
    lexing [] (codes "echo \"a b\"'c' \\| >>out")
    ≡ ok (
      true,
      tok (codes "echo")
          ∷ tok (codes "a bc")
          ∷ tok (codes "|")
          ∷ token op_gtgt (codes ">>")
          ∷ tok (codes "out")
          ∷ [],
    )
unfolding lexing lex_loop operator read_word read_piece double_quote single_quote backslash_quote
    end_word
lexing_runs = refl

lexing_refuses : lexing [] (codes "a 'b") ≡ ok (false, tok (codes "a") ∷ [])
unfolding lexing lex_loop operator read_word read_piece single_quote end_word
lexing_refuses = refl

lexing-Lexed_example : Lexed 4 4 (lexing [] (codes "a 'b"))
lexing-Lexed_example = lexing-Lexed (codes "a 'b") (omega arith)

abbrev tokens : List Token
tokens = tok (codes "a \"b\\|") ∷ token op_pipe (codes "|") ∷ tok [] ∷ []

lexing-render_example : lexing [] (render tokens) ≡ ok (true, tokens)
lexing-render_example = lexing-render [] tokens (omega arith, (refl, (omega arith, tt)))

render_runs : render tokens ≡ codes "\"a \\\"b\\\\|\" | \"\" "
unfolding render
render_runs = refl

parsing-IsLine_example : (parsing tokens ≡ true) ↔ IsLine tokens
parsing-IsLine_example = parsing-IsLine tokens

parsing_runs :
    (parsing tokens ≡ true) × (parsing (tok (codes "a") ∷ token op_semi (codes ";") ∷ []) ≡ false)
unfolding parsing
parsing_runs = (refl, refl)

-- sort < in -r >> out
abbrev sort_items : List Item
sort_items =
    arg (codes "sort") ∷ input (codes "in") ∷ arg (codes "-r") ∷ output true (codes "out") ∷ []

sort_items-IsPlain : IsPlain sort_items
unfolding str_eq is_output
sort_items-IsPlain = ((refl, refl), refl, ((refl, refl), refl, ((refl, refl), tt)))

parse_redirects-tokens_of_example :
    parse_redirects (tokens_of sort_items ++ [])
    ≡ parsed (args sort_items) (inputs sort_items) (outputs sort_items)
parse_redirects-tokens_of_example = parse_redirects-tokens_of sort_items [] sort_items-IsPlain tt

sort-IsStage : IsStage sort_items
sort-IsStage = record { plain = sort_items-IsPlain; runs = tt }

parse_pipeline-pipe_tokens_example :
    parse_pipeline (λ n. true) (pipe_tokens sort_items (sort_items ∷ []) ++ [])
    ≡ some (stage_of sort_items ∷ stage_of sort_items ∷ [], 2)
parse_pipeline-pipe_tokens_example =
    parse_pipeline-pipe_tokens (λ n. true) sort_items (sort_items ∷ []) [] sort-IsStage
      (sort-IsStage, tt) tt refl

-- Every regular file may be run; the current directory and /bin have `ls`.
abbrev pub files : System
files = record {
  stat = λ path.
      if str_eq path (codes "./ls") || str_eq path (codes "/bin/ls") then some true else none;
  access = λ path. true;
  path_var = some (codes "/bin");
  calloc_ok = λ n. true;
}

abbrev pub line : Script
line =
    semi (record { first = sort_items; others = sort_items ∷ [] })
      (last_amp (record { first = sort_items; others = [] }))

pub line-IsScript : IsScript line
line-IsScript = (
  record { first_runs = sort-IsStage; others_run = (sort-IsStage, tt) },
  record { first_runs = sort-IsStage; others_run = tt },
)

quoted_operator_example :
    parse_redirects (tokens_of sort_items ++ tok (codes ">") ∷ tok (codes "f") ∷ [])
    ≡ parse_redirects (tokens_of sort_items ++ token op_gt (codes ">") ∷ tok (codes "f") ∷ [])
quoted_operator_example = quoted_operator sort_items false (tok (codes "f") ∷ []) sort_items-IsPlain
