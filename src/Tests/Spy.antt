-- ===== src/Tests/Spy.antt =====
-- `spy` on a process with two mapped files.
use c_shell.Base.{◌≡◌, refl, true, List, [], ◌∷◌, some, none, Bytes, codes, str_eq}
use c_shell.Ping.Targets.{text}
use c_shell.Numbers.{pos, strtol, to_int}
use c_shell.Spy.{ProcFs, reg, Row, rows, exec_spy}

abbrev maps : List Bytes
maps =
    codes "55d0 r-xp /bin/cat\n"
    ∷ codes "7f00 rw-p \n"
    ∷ codes "7f10 r--p /lib/libc.so\n"
    ∷ codes "55d4 r--p /bin/cat\n"
    ∷ []

abbrev proc : ProcFs
proc = record {
  getpid = pos 7;
  exists = λ pid. true;
  cwd = λ pid. none;
  exe = λ pid. some (codes "/bin/cat");
  maps = λ pid. some maps;
  fds = λ pid. some ((codes ".", none) ∷ (codes "0", some (codes "/dev/tty")) ∷ []);
  stat = λ path. some reg;
}

abbrev entry : Bytes → Bytes → Row
entry label path = record { pid = pos 42; fd_label = label; type = reg; path = path }

spy_runs :
    exec_spy proc (text (codes "42") ∷ [])
    ≡ rows (
        entry (codes "txt") (codes "/bin/cat")
        ∷ entry (codes "mem") (codes "/bin/cat")
        ∷ entry (codes "mem") (codes "/lib/libc.so")
        ∷ entry (codes "0") (codes "/dev/tty")
        ∷ [])
unfolding exec_spy str_eq strtol to_int
spy_runs = refl
