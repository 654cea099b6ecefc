-- ===== src/Snoop/Names.antt =====
-- The names of system calls: `syscall_name` of c-shell/src/snoop.c.
use c_shell.Base.{ℕ, List, [], ◌∷◌, ◌==◌, if◌then◌else◌, ltb, Bytes, codes}
use c_shell.Numbers.{ℤ, pos, negsuc}

-- `MAX_SYSCALLS`
abbrev pub max_syscalls : ℕ
max_syscalls = 450

-- The entries of `table`, in the order in which they are set.
unfoldable pub table : List (ℕ × Bytes)
table =
    (0, codes "read")
    ∷ (1, codes "write")
    ∷ (2, codes "open")
    ∷ (3, codes "close")
    ∷ (4, codes "stat")
    ∷ (5, codes "fstat")
    ∷ (6, codes "lstat")
    ∷ (8, codes "lseek")
    ∷ (17, codes "pread64")
    ∷ (18, codes "pwrite64")
    ∷ (21, codes "access")
    ∷ (32, codes "dup")
    ∷ (33, codes "dup2")
    ∷ (72, codes "fcntl")
    ∷ (78, codes "getdents")
    ∷ (82, codes "rename")
    ∷ (83, codes "mkdir")
    ∷ (84, codes "rmdir")
    ∷ (86, codes "link")
    ∷ (87, codes "unlink")
    ∷ (89, codes "readlink")
    ∷ (90, codes "chmod")
    ∷ (92, codes "chown")
    ∷ (217, codes "getdents64")
    ∷ (257, codes "openat")
    ∷ (258, codes "mkdirat")
    ∷ (262, codes "newfstatat")
    ∷ (263, codes "unlinkat")
    ∷ (269, codes "faccessat")
    ∷ (9, codes "mmap")
    ∷ (10, codes "mprotect")
    ∷ (11, codes "munmap")
    ∷ (12, codes "brk")
    ∷ (25, codes "mremap")
    ∷ (16, codes "ioctl")
    ∷ (13, codes "rt_sigaction")
    ∷ (14, codes "rt_sigprocmask")
    ∷ (15, codes "rt_sigreturn")
    ∷ (22, codes "pipe")
    ∷ (34, codes "pause")
    ∷ (35, codes "nanosleep")
    ∷ (37, codes "alarm")
    ∷ (39, codes "getpid")
    ∷ (56, codes "clone")
    ∷ (57, codes "fork")
    ∷ (58, codes "vfork")
    ∷ (59, codes "execve")
    ∷ (60, codes "exit")
    ∷ (61, codes "wait4")
    ∷ (62, codes "kill")
    ∷ (63, codes "uname")
    ∷ (110, codes "getppid")
    ∷ (186, codes "gettid")
    ∷ (231, codes "exit_group")
    ∷ (234, codes "tgkill")
    ∷ (79, codes "getcwd")
    ∷ (80, codes "chdir")
    ∷ (102, codes "getuid")
    ∷ (104, codes "getgid")
    ∷ (107, codes "geteuid")
    ∷ (108, codes "getegid")
    ∷ (41, codes "socket")
    ∷ (42, codes "connect")
    ∷ (43, codes "accept")
    ∷ (44, codes "sendto")
    ∷ (45, codes "recvfrom")
    ∷ (49, codes "bind")
    ∷ (50, codes "listen")
    ∷ (96, codes "gettimeofday")
    ∷ (201, codes "time")
    ∷ (228, codes "clock_gettime")
    ∷ (230, codes "clock_nanosleep")
    ∷ (97, codes "getrlimit")
    ∷ (99, codes "sysinfo")
    ∷ (137, codes "statfs")
    ∷ (157, codes "prctl")
    ∷ (158, codes "arch_prctl")
    ∷ (202, codes "futex")
    ∷ (218, codes "set_tid_address")
    ∷ (273, codes "set_robust_list")
    ∷ (302, codes "prlimit64")
    ∷ (318, codes "getrandom")
    ∷ []

-- A name of the table, or `syscall_` with the number.
pub data Name : Type 0 where
  known : Bytes → Name
  numbered : ℤ → Name

unfoldable pub name_in : List (ℕ × Bytes) → ℕ → Name
name_in [] n = numbered (pos n)
name_in ((m, name) ∷ rest) n = if m == n then known name else name_in rest n

unfoldable pub syscall_name : ℤ → Name
unfolding table name_in
syscall_name (negsuc n) = numbered (negsuc n)
syscall_name (pos n) = if ltb n max_syscalls then name_in table n else numbered (pos n)
