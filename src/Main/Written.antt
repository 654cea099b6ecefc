-- ===== src/Main/Written.antt =====
-- From the bytes of a line to what is started: lexer.c, parser.c, main.c, sequence.c and command.c
-- together.
use c_shell.Sequence.Script.{Script}
