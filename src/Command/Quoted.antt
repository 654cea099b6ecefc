-- ===== src/Command/Quoted.antt =====
-- Where command.c departs from the shell it describes: quoted operators, and a second lookup of names that were given with `%`.
use c_shell.Base.{
  ℕ, ◌≡◌, ap, sym, ◌∙◌, Bool, true, false, List, [], ◌∷◌, ◌++◌, some, ◌==◌, Bytes, arith,
}
use c_shell.Lexer.{Token, word}
use c_shell.Command.{
  OutputFile, fresh_stage, parsed, second_pass, parse_redirects, parse_input_redirect,
}
use c_shell.Command.Items.{
  Item, token, redirect_token, tokens_of, inputs, IsPlain, PassesInput, input_loop-tokens_of,
  input_loop_word, raw_args, redirect-PassesInput,
}
use c_shell.Command.Resolve.{System, strchr, is_executable, find_path, print_path, resolve_command}
use c_shell.Command.Exec.{run_pipeline, look_up, exec_parsed}

-- A word that is spelled `>` or `>>`, which the lexer makes of a quoted one, is taken for the operator:
-- behind any arguments and redirections, and whatever comes next, the command is parsed as with the
-- operator in its place.
pub quoted_operator :
    (before : List Item) (append : Bool) (rest : List Token)
    → IsPlain before
    → parse_redirects (tokens_of before ++ token word (redirect_token append).value ∷ rest)
      ≡ parse_redirects (tokens_of before ++ redirect_token append ∷ rest)
unfolding parse_redirects parse_input_redirect
quoted_operator before append rest hb = ap second_pass (
    input_loop-tokens_of [] [] before _ hb
    ∙ input_loop_word (raw_args before) (inputs before) (token word op) _ ok_op
    ∙ sym (
        input_loop-tokens_of [] [] before _ hb
        ∙ input_loop_word (raw_args before) (inputs before) (redirect_token append) _ ok_op))
  where
    op : Bytes
    op = (redirect_token append).value

    ok_op : PassesInput op
    ok_op = redirect-PassesInput append

module _ (sys : System) where
  -- A name given with `%` is looked up on PATH alone, but in the foreground it is then looked up again
  -- without the `%`, by the child of `run_pipeline`: an executable of that name in the current directory
  -- is run in place of the program on PATH. In a pipeline the same name gives the program on PATH.
  percent_name :
      (c : ℕ) (cs path : Bytes) (rest ins : List Bytes) (outs : List OutputFile)
      → strchr (c ∷ cs) b'/' ≡ false
      → (c == b'%') ≡ false
      → find_path sys (c ∷ cs) ≡ some path
      → is_executable sys (print_path (b'.' ∷ b'/' ∷ c ∷ cs)) ≡ true
      → (exec_parsed sys (parsed ((b'%' ∷ c ∷ cs) ∷ rest) ins outs)
          ≡ (0, run_pipeline (fresh_stage ((c ∷ cs) ∷ rest) ins outs ∷ []) 1 ∷ []))
        × (resolve_command sys (c ∷ cs) ≡ (some (print_path (b'.' ∷ b'/' ∷ c ∷ cs)), c ∷ cs))
        × (resolve_command sys (b'%' ∷ c ∷ cs) ≡ (some path, c ∷ cs))
  unfolding look_up strchr resolve_command
  percent_name c cs path rest ins outs h g f e = ground arith
