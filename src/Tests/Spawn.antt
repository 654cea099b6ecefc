-- ===== src/Tests/Spawn.antt =====
-- The descriptors of a pipeline of two stages.
use c_shell.Base.{
  ℕ, ◌+◌, ◌-◌, ◌++◌, length, ◌≡◌, refl, Bool, true, false, not, List, [], ◌∷◌, some, none, Bytes,
  ◌==◌, codes, arith,
}
use c_shell.Command.{OutputFile, PipelineStage, fresh_stage}
use c_shell.Command.Resolve.{System}
use c_shell.Spawn.{Kernel}
use c_shell.Spawn.Stages.{setup_stages, make_pipes, pipe_fds}
use c_shell.Spawn.Foreground.{start_pipeline}
use c_shell.Spawn.Background.{background_copiers, start_background}
use c_shell.Spawn.Balance.{count, AllFresh, all_leaked, Owes}
use c_shell.Spawn.Leaks.{ChildrenHold, start_pipeline-left}
use c_shell.Spawn.Wired.{pipes_from}
use c_shell.Spawn.Complete.{Launched, start_pipeline-Complete}
use c_shell.Spawn.Detached.{AllKeep, start_background-Owes, background_copiers-keep}

abbrev system : System
system = record {
  stat = λ p. some true;
  access = λ p. true;
  path_var = none;
  calloc_ok = λ n. true;
}

abbrev booted : Kernel
booted = record { next = 0; opened = []; closed = []; inputs = []; created = []; forked = [] }

abbrev to : Bytes → OutputFile
to name = record { name = name; append = false }

-- cat < missing > out | wc > a > b
abbrev stages : List PipelineStage
stages =
    fresh_stage (codes "cat" ∷ []) (codes "missing" ∷ []) (to (codes "out") ∷ [])
    ∷ fresh_stage (codes "wc" ∷ []) [] (to (codes "a") ∷ to (codes "b") ∷ [])
    ∷ []

-- Only the first call fails.
abbrev ok : ℕ → Bool
ok n = not (n == 0)

stages-AllFresh : AllFresh stages
unfolding AllFresh
stages-AllFresh = (
  record { no_fds = refl; no_pipe = refl; not_failed = refl },
  (record { no_fds = refl; no_pipe = refl; not_failed = refl }, tt),
)

booted-Owes : Owes 1 booted 0
unfolding Owes count
booted-Owes = omega arith

-- Behind the pipeline the file `out` is still open.
out_leaks : all_leaked (setup_stages ok stages booted).0 ≡ 1 ∷ []
unfolding all_leaked setup_stages
out_leaks = refl

start_pipeline-left_example :
    let leaks = 0 + count 1 (all_leaked (setup_stages ok stages booted).0) in
    Owes 1 (start_pipeline ok system stages booted).1 leaks
    × ChildrenHold 1 ok system leaks (start_pipeline ok system stages booted)
start_pipeline-left_example =
    start_pipeline-left 1 ok system stages booted 0 stages-AllFresh booted-Owes

start_pipeline-Complete_example :
    let k' = (setup_stages (λ n. true) stages booted).1 in
    let made = make_pipes (λ n. true) (length stages - 1) k' in
    (made.0 ≡ pipes_from k'.next (length stages - 1))
    × (made.2.opened ≡ k'.opened ++ pipe_fds made.0)
    × Launched system
        (λ n. true)
        (λ n. refl)
        made.0
        stages
        (start_pipeline (λ n. true) system stages booted)
start_pipeline-Complete_example =
    start_pipeline-Complete system (λ n. true) (λ n. refl) stages booted stages-AllFresh

start_background-Owes_example :
    Owes 1
      (start_background ok
        (codes "/bin/cat")
        (codes "cat" ∷ [])
        []
        (to (codes "a") ∷ to (codes "b") ∷ [])
        booted).1
      0
start_background-Owes_example =
    start_background-Owes 1 ok (codes "/bin/cat") (codes "cat" ∷ []) []
      (to (codes "a") ∷ to (codes "b") ∷ []) booted 0 booted-Owes

-- The stages and the pipe between them as they are when the copier of the second stage starts.
abbrev ready : List PipelineStage × Kernel
ready = setup_stages ok stages booted

abbrev piped : Kernel
piped = (make_pipes ok 1 ready.1).2

piped-Owes : Owes 5 piped 1
unfolding Owes count setup_stages make_pipes
piped-Owes = omega arith

piped_next : piped.next ≡ 6
unfolding setup_stages make_pipes
piped_next = refl

background_copiers-keep_example : AllKeep 5 ok piped (background_copiers ok ready.0 piped).1
background_copiers-keep_example =
    background_copiers-keep 5 ok ready.0 piped 0 piped-Owes (omega (arith, piped_next))
