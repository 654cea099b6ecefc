-- ===== src/Lib.antt =====
-- A model of C-SHELL, the interactive shell under c-shell/, and of the scheduler that the
-- repository adds to the kernel under xv6/ with the processes it schedules (the rest of which is
-- a copy of another project and is not modelled).
--
-- A line goes from the lexer (c-shell/src/lexer.c) to the syntax check (parser.c); an accepted
-- line whose first word is no built-in command goes to sequence_command (sequence.c), which
-- splits it at ; and & and gives each command to exec_command, exec_background_command or
-- run_pipeline_background (command.c); those parse redirections and pipelines, look the program
-- up, and start processes. Jobs that run in the background or are stopped stand in the job table
-- (background.c), which the SIGCHLD handler, the prompt and the built-in commands change;
-- terminal.c waits for the foreground group and handles the end of input.
--
-- - Base: names of the libraries, Boolean tests, lists over the native numbers, strcmp.
-- - Lexer: lexer.c and include/lexer.h, each quoting routine and the loop of lexing. Lexer.Words
--   and Lexer.Bounds: the word buffer and the end of the loops. Lexer.RoundTrip: a line for
--   every token list.
-- - Parser: parser.c. Parser.Grammar: the lines it accepts.
-- - Command: the parsing half of command.c (parse_input_redirect, parse_output_redirection,
--   parse_pipeline_stage, has_pipeline, parse_pipeline) and the types of include/command.h.
--   Command.Items and Command.Pipes: what is parsed. Command.Resolve: is_executable of locate.c,
--   find_path, resolve_command. Command.Exec: exec_command and exec_background_command.
--   Command.Quoted: two departures.
-- - Sequence: sequence.c. Sequence.Programs: which program a command runs. Sequence.Script:
--   lines of jobs and what they mean. Sequence.Runs: one job. Sequence.Order: the order in which
--   they run.
-- - Jobs: the job table of background.c, with the SIGCHLD handler, registration and draining;
--   Jobs.Control: get_activities and what resume and the others do to a job. Jobs.Invariant,
--   Jobs.Removal, Jobs.Keeps, Jobs.Steps, Jobs.Lookup, Jobs.Notify, Jobs.Life, Jobs.Drained: the
--   table over time.
-- - Terminal: the waiting loops and handle_eof of terminal.c. Terminal.Waits, Terminal.Ends,
--   Terminal.Eof: what they promise.
-- - Numbers: strtol and the conversion of a long to an int, as resume.c and ping.c use them.
--   Numbers.Decimal: what it reads from digits.
-- - Ping: ping.c. Ping.Targets: which job or process is signalled. Ping.Wraps: job numbers that
--   it does not tell apart.
-- - Resume: resume.c. Resume.Outcome: the job table afterwards. Resume.Jobs: what becomes of the
--   job.
-- - Activities: activities.c.
-- - Frecency: the visits of frecency.c. Frecency.Record: recording a visit. Frecency.Load:
--   loading a log. Frecency.Best: the search. Frecency.Log, Frecency.Digits, Frecency.Saved: the
--   text of hop.log.
-- - Hop: hop.c with the log of frecency.c, and user_path.c. Hop.Moves: the shell's state through
--   hop commands. Hop.Back: hop -, and where the log is written.
-- - Sorting: qsort and strcmp.
-- - Peek: peek.c. Peek.Files: its options and files. Peek.Backward, Peek.Segments: the file read
--   from its end. Peek.Pieces, Peek.Numbered: the numbered lines. Peek.Options: the words in any
--   order.
-- - Reveal: reveal.c. Reveal.Listing: one directory. Reveal.Trees: the recursion.
-- - Locate: locate.c. Locate.Found: the paths it prints.
-- - Snoop: the table of snoop.c. Snoop.Names: the names of the calls. Snoop.Trace: the loop over
--   the stops and the ways to start. Snoop.Calls, Snoop.Counts: what is counted. Snoop.Ranking:
--   the order of the rows.
-- - Spy: spy.c. Spy.Mapped: the mapped files.
-- - Spawn: the calls of open_output_files and setup_input in command.c. Spawn.Stages: what the
--   two pipelines share. Spawn.Foreground: start_output_copier and run_pipeline.
--   Spawn.Background: run_pipeline_background, and run_background of background.c.
--   Spawn.Copying: the copying processes at work. Spawn.Logged, Spawn.Opened, Spawn.Ready,
--   Spawn.Copied, Spawn.Wired, Spawn.Started, Spawn.Complete: what each process of a pipeline
--   reads and writes. Spawn.Balance, Spawn.Closed, Spawn.Leaks, Spawn.Detached: which
--   descriptors are left.
-- - Main: the loop of main.c. Main.Turns: what a turn does with its line. Main.Session: the loop
--   on all of its input, the ends of input included. Main.Written: from the bytes of a line to
--   what is started.
-- - Mlfq: the multi-level feedback queues of xv6/kernel/proc.c, with their pointers, and the
--   timer interrupt of trap.c. Mlfq.Fifo: one linked queue. Mlfq.Levels: the four together.
--   Mlfq.Highest: which process is taken. Mlfq.Runnable and Mlfq.Boost: mlfq_boost. Mlfq.Slices:
--   the time slices. Mlfq.Processes, Mlfq.Exits, Mlfq.Clock: the life of a process, the
--   scheduler and the clock. Mlfq.Ready: which processes stand in the queues. Mlfq.Started,
--   Mlfq.Woken, Mlfq.Ended, Mlfq.Chosen, Mlfq.Switched, Mlfq.Fewer, Mlfq.Boosted: that each call
--   keeps them. Mlfq.Awake: wake-ups between sleep_prepare and sleep. Mlfq.Life: any calls in
--   any order.
-- - Tests: runs on small inputs and the theorems at concrete ones.
--
-- A C string is the list of its bytes before the NUL, a linked list of tokens is a list, and an
-- array with its count is a list. The buffers word[1024] of the lexer and line[1024] of peek,
-- the array of peek's names and the path buffers of locate and reveal keep their bounds; the
-- other fixed arrays do not. qsort is sorting by insertion: a sorted list of names, or of
-- entries with different orders, does not depend on how it is sorted. Counters such as
-- next_job_number are numbers without a largest one. A process id is a number. A channel of xv6
-- is the process or the object whose address it is. A function of proc.c is one step: the model
-- is that of one processor, on which no other call or interrupt comes between the locks that a
-- function takes; mlfq_boost and scheduler release theirs in between, and on several processors
-- others run there.
--
-- The lexer's loops take fuel: lexing gives one round more than the line has bytes, and the loop
-- over a word two more than the bytes behind its first one. Each round takes at least one byte,
-- so the outcome out_of_fuel does not occur. The main loop takes the rounds that it is given,
-- and twice as many as stdin has bytes and ends of input, and two more, are enough. The loops of
-- mlfq_boost take rounds too: clockintr gives 65, one more than the table has processes.
-- entries_from takes a round for each byte of hop.log. reverse and reverse_with_nums of peek.c
-- take one round for each byte of the file, and each round but the last reads 1024. The walk of
-- reveal takes the levels it may go down, and more levels than the tree has are enough; a walk
-- that goes deeper is an outcome of its own. Every other loop is structural.
--
-- The system is a parameter: what stat, access, getenv and calloc answer
-- (Command.Resolve.System), as a function of what has been launched so far (Sequence.World);
-- what waitpid reports is a list; what getcwd, chdir, access and fopen answer is Hop.FileSystem.
-- What opendir, readdir, stat, readlink and ptrace answer is an argument of the command that
-- asks. Which of the calls that open, make a pipe or fork fail is a function of their number in
-- Spawn, where a descriptor is named by the call that opened it. A log hop.log is the list of
-- the entries that its text gives (Frecency.Log), with numbers that are not negative. A function
-- of background.c runs with SIGCHLD blocked or inside its handler, so it is one step of the
-- table, but for drain_background_notifications, which main.c calls with SIGCHLD open: each turn
-- of its loop is a step, the handler may run between them, and a signal inside a turn, while a
-- job is copied, is not modelled. A notification is written whole, since it is shorter than a
-- pipe's atomic write.
--
-- Not modelled: the memory and the files of an xv6 process and the rest of xv6, process groups
-- and signal dispositions of children, terminal ownership, and the printing of messages beyond
-- the values that stand for them.

pub mod Base
pub mod Lexer
pub mod Parser
pub mod Command
pub mod Sequence
pub mod Jobs
pub mod Terminal
pub mod Numbers
pub mod Ping
pub mod Resume
pub mod Activities
pub mod Frecency
pub mod Hop
pub mod Sorting
pub mod Peek
pub mod Reveal
pub mod Locate
pub mod Snoop
pub mod Spy
pub mod Spawn
pub mod Main
pub mod Mlfq
pub mod Tests
