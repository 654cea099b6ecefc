-- ===== src/Spawn.antt =====
-- The descriptors and processes of a pipeline: `open_output_files` and `setup_input` of
-- c-shell/src/command.c. A descriptor or a process is named by the call that makes it.
pub mod Stages
pub mod Foreground
pub mod Background
pub mod Balance
pub mod Closed
pub mod Leaks
pub mod Detached
pub mod Copying
pub mod Logged
pub mod Opened
pub mod Ready
pub mod Copied
pub mod Wired
pub mod Started
pub mod Complete
use c_shell.Base.{
  ℕ, zero, suc, ◌+◌, Bool, true, false, not, ◌&&◌, List, [], ◌∷◌, ◌++◌, Option, some, none, length,
  ltb, if◌then◌else◌, Bytes,
}
use c_shell.Command.{OutputFile, PipelineStage}

abbrev pub Pipe : Type 0
Pipe = ℕ × ℕ

-- What a forked process does: it copies files into a pipe, or a pipe into files, ends at once, or calls
-- `execv` with a path and arguments, reading and writing the descriptors given, or the shell's own.
pub data Role : Type 0 where
  writer : List ℕ → ℕ → Role
  copier : ℕ → List ℕ → Role
  exits : Role
  execs : Bytes → List Bytes → Option ℕ → Option ℕ → Role

-- A forked process: its number, what the shell had opened and closed by then, and what the process closes
-- before it copies or calls `execv`.
pub record Forked : Type 0 where
  pub pid : ℕ
  pub opened : List ℕ
  pub closed : List ℕ
  pub dropped : List ℕ
  pub role : Role

-- The number of the next call; the descriptors that the shell has opened and closed, the input files and
-- the output files with their flags that it has opened, the processes that it has forked.
pub record Kernel : Type 0 where
  pub next : ℕ
  pub opened : List ℕ
  pub closed : List ℕ
  pub inputs : List (ℕ × Bytes)
  pub created : List (ℕ × OutputFile)
  pub forked : List Forked

unfoldable pub close_all : List ℕ → Kernel → Kernel
close_all fds k = record k { closed = k.closed ++ fds }

abbrev pub both : Pipe → List ℕ
both p = p.0 ∷ p.1 ∷ []

abbrev pub optional : Option ℕ → List ℕ
optional none = []
optional (some fd) = fd ∷ []

abbrev pub optional_pipe : Option Pipe → List ℕ
optional_pipe none = []
optional_pipe (some p) = both p

-- A call that opens nothing: it fails, or forks.
abbrev pub called : Kernel → Kernel
called k = record k { next = suc k.next }

unfoldable pub fork_child : List ℕ → Role → Kernel → Kernel
fork_child dropped role k = record k {
  next = suc k.next;
  forked =
      k.forked
      ++ record {
        pid = k.next;
        opened = k.opened;
        closed = k.closed;
        dropped = dropped;
        role = role;
      }
        ∷ [];
}

abbrev pub opening : Kernel → Kernel
opening k = record k { next = suc k.next; opened = k.opened ++ k.next ∷ [] }

abbrev pub reading : Bytes → Kernel → Kernel
reading f k = record (opening k) { inputs = k.inputs ++ (k.next, f) ∷ [] }

abbrev pub creating : OutputFile → Kernel → Kernel
creating f k = record (opening k) { created = k.created ++ (k.next, f) ∷ [] }

-- A pipe has the number of the call and the one behind it.
abbrev pub piping : Kernel → Kernel
piping k = record k { next = 2 + k.next; opened = k.opened ++ both (k.next, suc k.next) }

module _ (ok : ℕ → Bool) where
  -- With the descriptors opened so far.
  unfoldable pub open_loop : List ℕ → List OutputFile → Kernel → Option (List ℕ) × Kernel
  unfolding close_all
  open_loop fds [] k = (some fds, k)
  open_loop fds (f ∷ fs) k =
      let more = open_loop (fds ++ k.next ∷ []) fs (creating f k) in
      if ok k.next then more else (none, close_all fds (called k))

  unfoldable pub open_output_files : List OutputFile → Kernel → Option (List ℕ) × Kernel
  unfolding open_loop
  open_output_files files k = open_loop [] files k

  unfoldable pub input_loop : List ℕ → List Bytes → Kernel → Option (List ℕ) × Kernel
  unfolding close_all
  input_loop fds [] k = (some fds, k)
  input_loop fds (f ∷ fs) k =
      let more = input_loop (fds ++ k.next ∷ []) fs (reading f k) in
      if ok k.next then more else (none, close_all fds (called k))

  -- The pipe with its writer, behind the inputs that are open.
  unfoldable pub start_writer : List ℕ → Kernel → Option (ℕ × ℕ) × Kernel
  unfolding close_all fork_child
  start_writer fds k =
      let p : Pipe = (k.next, suc k.next) in
      let k' = piping k in
      if not (ok k.next)
      then (none, close_all fds (called k))
      else if not (ok k'.next)
      then (none, close_all fds (close_all (both p) (called k')))
      else (
        some (p.0, k'.next),
        close_all fds (close_all (p.1 ∷ []) (fork_child (p.0 ∷ []) (writer fds p.1) k')),
      )

  abbrev pub opened_inputs : Option (List ℕ) × Kernel → Option (ℕ × ℕ) × Kernel
  opened_inputs (none, k) = (none, k)
  opened_inputs (some fds, k) = start_writer fds k

  -- The descriptor to read from, and the process that writes into it.
  unfoldable pub setup_input : List Bytes → Kernel → Option (ℕ × ℕ) × Kernel
  unfolding input_loop start_writer
  setup_input files k = opened_inputs (input_loop [] files k)
