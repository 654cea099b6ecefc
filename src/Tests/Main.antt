-- ===== src/Tests/Main.antt =====
-- The main loop.
use c_shell.Base.{[], ◌∷◌, ◌++◌, Bytes, codes}
use c_shell.Jobs.{Table, empty_table, register_stopped_job}
use c_shell.Jobs.Steps
use c_shell.Main.Session.{Session}

abbrev typed : Bytes
typed = codes "ls" ++ b'\n' ∷ b'\n' ∷ codes "hop"

-- A table with a stopped job.
abbrev suspended : Table
suspended = (register_stopped_job empty_table 30 ((30, codes "sleep") ∷ []) (codes "sleep 9")).0
