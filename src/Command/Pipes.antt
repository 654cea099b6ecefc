-- ===== src/Command/Pipes.antt =====
-- `parse_pipeline` on a line that is written as commands with `|` between them.
use c_shell.Base.{
  ℕ, suc, ◌+◌, ◌≡◌, refl, ap, ◌∙◌, Bool, true, false, List, [], ◌∷◌, ◌++◌, map, some, length,
  append_assoc, append-nil, append_two, Bytes, codes, arith,
}
use c_shell.Lexer.{Token, op_pipe, op_lt, word}
use c_shell.Command.{
  OutputFile, PipelineStage, fresh_stage, keep_stage, parse_pipeline_stage, count_stages,
  pipeline_loop, parse_pipeline, ends_command,
}
use c_shell.Command.Items.{
  Item, redirect_token, arg, input, output, token, tokens_of, args, inputs, outputs, IsPlain,
  parse_pipeline_stage-tokens_of,
}

abbrev pub stage_of : List Item → PipelineStage
stage_of is = fresh_stage (args is) (inputs is) (outputs is)

abbrev pub HasArgument : List Bytes → Type 0
HasArgument [] = ⊥
HasArgument (a ∷ as_) = Unit

-- A command of a pipeline that the shell can run: it has an argument and no quoted operator.
pub record IsStage (is : List Item) : Type 0 where
  pub plain : IsPlain is
  pub runs : HasArgument (args is)

abbrev pub AllStages : List (List Item) → Type 0
AllStages [] = Unit
AllStages (p ∷ ps) = IsStage p × AllStages ps

-- The commands `p` and then `ps`, with `|` between them.
abbrev pub pipe_tokens : List Item → List (List Item) → List Token
pipe_tokens p [] = tokens_of p
pipe_tokens p (q ∷ ps) = tokens_of p ++ token op_pipe (codes "|") ∷ pipe_tokens q ps

-- The pipeline ends here: the line does, or there is a `;` or a `&`.
abbrev pub EndsKind : List Token → Type 0
EndsKind [] = Unit
EndsKind (t ∷ ts) = ends_command t.kind ≡ true

pipeline_loop-tokens_of :
    (done : List PipelineStage) (seg : List Token) (is : List Item) (rest : List Token)
    → pipeline_loop done seg (tokens_of is ++ rest) ≡ pipeline_loop done (seg ++ tokens_of is) rest
unfolding pipeline_loop
pipeline_loop-tokens_of done seg [] rest = rw append-nil
pipeline_loop-tokens_of done seg (arg v ∷ is) rest =
    pipeline_loop-tokens_of done (seg ++ token word v ∷ []) is rest
    ∙ ap (λ l. pipeline_loop done l rest) (append_assoc seg (token word v ∷ []) (tokens_of is))
pipeline_loop-tokens_of done seg (input v ∷ is) rest =
    pipeline_loop-tokens_of done ((seg ++ token op_lt (codes "<") ∷ []) ++ token word v ∷ []) is
      rest
    ∙ ap (λ l. pipeline_loop done l rest)
        (append_two seg (token op_lt (codes "<")) (token word v) (tokens_of is))
pipeline_loop-tokens_of done seg (output true v ∷ is) rest =
    pipeline_loop-tokens_of done ((seg ++ redirect_token true ∷ []) ++ token word v ∷ []) is rest
    ∙ ap (λ l. pipeline_loop done l rest)
        (append_two seg (redirect_token true) (token word v) (tokens_of is))
pipeline_loop-tokens_of done seg (output false v ∷ is) rest =
    pipeline_loop-tokens_of done ((seg ++ redirect_token false ∷ []) ++ token word v ∷ []) is rest
    ∙ ap (λ l. pipeline_loop done l rest)
        (append_two seg (redirect_token false) (token word v) (tokens_of is))

count_stages-tokens_of :
    (n : ℕ) (is : List Item) (rest : List Token)
    → count_stages n (tokens_of is ++ rest) ≡ count_stages n rest
unfolding count_stages
count_stages-tokens_of n [] rest = refl
count_stages-tokens_of n (arg v ∷ is) rest = count_stages-tokens_of n is rest
count_stages-tokens_of n (input v ∷ is) rest = count_stages-tokens_of n is rest
count_stages-tokens_of n (output true v ∷ is) rest = count_stages-tokens_of n is rest
count_stages-tokens_of n (output false v ∷ is) rest = count_stages-tokens_of n is rest

stage_parses :
    (is : List Item) → IsStage is → parse_pipeline_stage (tokens_of is) ≡ some (stage_of is)
stage_parses is s =
    parse_pipeline_stage-tokens_of is s.plain ∙ kept (args is) (inputs is) (outputs is) s.runs
  where
    kept :
        (argv ins : List Bytes) (outs : List OutputFile)
        → HasArgument argv
        → keep_stage argv ins outs ≡ some (fresh_stage argv ins outs)
    kept [] ins outs h = absurd h
    kept (a ∷ argv) ins outs h = refl

pipeline_loop_stop :
    (done : List PipelineStage) (is : List Item) (rest : List Token)
    → IsStage is
    → EndsKind rest
    → pipeline_loop done (tokens_of is) rest ≡ some (done ++ stage_of is ∷ [])
unfolding pipeline_loop
pipeline_loop_stop done is [] s e = rw (stage_parses is s)
pipeline_loop_stop done is (t ∷ ts) s e = ground (arith, stage_parses is s)

pipeline_loop_pipe :
    (done : List PipelineStage) (is : List Item) (ts : List Token)
    → IsStage is
    → pipeline_loop done (tokens_of is) (token op_pipe (codes "|") ∷ ts)
      ≡ pipeline_loop (done ++ stage_of is ∷ []) [] ts
unfolding pipeline_loop
pipeline_loop_pipe done is ts s = rw (stage_parses is s)

-- The stages that the loop adds for `p` and `ps`.
pipeline_loop-pipe_tokens :
    (done : List PipelineStage) (p : List Item) (ps : List (List Item)) (rest : List Token)
    → IsStage p
    → AllStages ps
    → EndsKind rest
    → pipeline_loop done [] (pipe_tokens p ps ++ rest) ≡ some (done ++ map stage_of (p ∷ ps))
pipeline_loop-pipe_tokens done p [] rest s all e =
    pipeline_loop-tokens_of done [] p rest ∙ pipeline_loop_stop done p rest s e
pipeline_loop-pipe_tokens done p (q ∷ ps) rest s all e =
    ap (pipeline_loop done [])
      (append_assoc (tokens_of p) (token op_pipe (codes "|") ∷ pipe_tokens q ps) rest)
    ∙ pipeline_loop-tokens_of done [] p _
    ∙ pipeline_loop_pipe done p (pipe_tokens q ps ++ rest) s
    ∙ pipeline_loop-pipe_tokens (done ++ stage_of p ∷ []) q ps rest all.0 all.1 e
    ∙ ap some (append_assoc done (stage_of p ∷ []) (map stage_of (q ∷ ps)))

count_stages-pipe_tokens :
    (n : ℕ) (p : List Item) (ps : List (List Item)) (rest : List Token)
    → EndsKind rest
    → count_stages n (pipe_tokens p ps ++ rest) ≡ n + length ps
unfolding count_stages
count_stages-pipe_tokens n p [] [] e = count_stages-tokens_of n p [] ∙ omega arith
count_stages-pipe_tokens n p [] (t ∷ ts) e =
    count_stages-tokens_of n p (t ∷ ts) ∙ rw e (omega arith)
count_stages-pipe_tokens n p (q ∷ ps) rest e =
    ap (count_stages n)
      (append_assoc (tokens_of p) (token op_pipe (codes "|") ∷ pipe_tokens q ps) rest)
    ∙ count_stages-tokens_of n p _
    ∙ count_stages-pipe_tokens (suc n) q ps rest e
    ∙ omega arith

-- A pipeline written as commands with `|` between them, each with an argument and no word spelled
-- like an operator, is parsed to one stage for each command, in order, and to their number, provided
-- `calloc` finds the room; what follows the `;` or `&` behind it plays no part.
pub parse_pipeline-pipe_tokens :
    (calloc_ok : ℕ → Bool) (p : List Item) (ps : List (List Item)) (rest : List Token)
    → IsStage p
    → AllStages ps
    → EndsKind rest
    → calloc_ok (length (p ∷ ps)) ≡ true
    → parse_pipeline calloc_ok (pipe_tokens p ps ++ rest)
      ≡ some (map stage_of (p ∷ ps), length (p ∷ ps))
unfolding parse_pipeline
parse_pipeline-pipe_tokens calloc_ok p ps rest s all e room =
    let count : count_stages 1 (pipe_tokens p ps ++ rest) ≡ suc (length ps) =
      count_stages-pipe_tokens 1 p ps rest e ∙ omega arith in
    rw (count, room, pipeline_loop-pipe_tokens [] p ps rest s all e) refl
