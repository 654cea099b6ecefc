-- ===== src/Jobs.antt =====
-- The job table of c-shell/src/background.c. `jobs[0 .. job_count)` is the list of jobs, a pid is a
-- number, and `notification_pipe` is the list of the notifications written and not yet read. A function
-- runs with SIGCHLD blocked or inside its handler and is one step, but for
-- `drain_background_notifications`, where each turn of the loop is one.
pub mod Control
pub mod Invariant
pub mod Removal
pub mod Keeps
pub mod Steps
pub mod Lookup
pub mod Notify
pub mod Life
pub mod Drained
use c_shell.Base.{
  ℕ, zero, suc, ◌+◌, ◌-◌, Bool, true, false, not, ◌&&◌, ◌||◌, List, [], ◌∷◌, ◌++◌, map, Option,
  some, none, length, take, ltb, leb, ◌==◌, if◌then◌else◌, Bytes,
}

-- PROC_RUNNING and PROC_STOPPED
pub data ProcState : Type 0 where
  running stopped : ProcState

-- `struct proc_info`
pub record Proc : Type 0 where
  pub pid : ℕ
  pub name : Bytes
  pub state : ProcState
  pub exited : Bool

-- `struct background_job`
pub record BackgroundJob : Type 0 where
  pub job_number : ℕ
  pub pgid : ℕ
  pub procs : List Proc
  pub remaining : ℕ
  pub active : Bool
  pub cmdline : Bytes

-- `struct notification`
pub record Notification : Type 0 where
  pub pid : ℕ
  pub exited_normally : Bool

-- `jobs` with `job_count`, `next_job_number`, and the notifications in the pipe.
pub record Table : Type 0 where
  pub jobs : List BackgroundJob
  pub next_job_number : ℕ
  pub pipe : List Notification

abbrev pub max_jobs : ℕ
max_jobs = 100

abbrev pub max_procs : ℕ
max_procs = 100

abbrev pub empty_table : Table
empty_table = record { jobs = []; next_job_number = 1; pipe = [] }

-- What the functions print to stderr.
pub data Message : Type 0 where
  table_full : Message
  started : ℕ → ℕ → Message
  stopped_job : ℕ → Bytes → Message
  finished : Bytes → ℕ → Bool → Message

-- The status of a child as `waitpid` reports it.
pub data WaitStatus : Type 0 where
  exited signaled stopped continued : WaitStatus

-- WIFEXITED || WIFSIGNALED
abbrev pub is_end : WaitStatus → Bool
is_end exited = true
is_end signaled = true
is_end stopped = false
is_end continued = false

abbrev pub is_exited : WaitStatus → Bool
is_exited exited = true
is_exited _ = false

abbrev pub apply_status : WaitStatus → Proc → Proc
apply_status stopped p = record p { state = ProcState.stopped }
apply_status continued p = record p { state = running }
apply_status exited p = record p { exited = true }
apply_status signaled p = record p { exited = true }

-- The loop over the processes of a job: the first one with this pid that has not exited takes the
-- status; `none` if there is none (`matched` stays 0).
unfoldable pub reap_proc : ℕ → WaitStatus → List Proc → Option (List Proc)
reap_proc pid status [] = none
reap_proc pid status (p ∷ ps) =
    let rest = reap_proc pid status ps in
    if p.exited || not (p.pid == pid)
    then elim rest [ none ↦ none | some ps' ↦ some (p ∷ ps') ]
    else some (apply_status status p ∷ ps)

-- `procs[0].pid`
abbrev pub leader : List Proc → ℕ
leader [] = 0
leader (p ∷ ps) = p.pid

-- The job with its processes as they are now, and the notification that it writes: the last process
-- to exit writes one.
abbrev pub reaped : WaitStatus → BackgroundJob → List Proc → BackgroundJob
reaped status j procs = record j {
  procs = procs;
  remaining = if is_end status then j.remaining - 1 else j.remaining;
}

abbrev pub notify : WaitStatus → BackgroundJob → List Proc → List Notification
notify status j procs =
    if is_end status && (j.remaining - 1) == 0
    then record { pid = leader procs; exited_normally = is_exited status } ∷ []
    else []

-- The loop over the jobs, which stops at the first match.
unfoldable pub reap_job :
    ℕ → WaitStatus → List BackgroundJob → List BackgroundJob × List Notification
unfolding reap_proc
reap_job pid status [] = ([], [])
reap_job pid status (j ∷ js) =
    let rest = reap_job pid status js in
    let later : List BackgroundJob × List Notification = (j ∷ rest.0, rest.1) in
    if not j.active then later else elim (reap_proc pid status j.procs) [
      | none ↦ later
      | some procs ↦ (reaped status j procs ∷ js, notify status j procs)
    ]

-- One child that `waitpid` reports.
unfoldable pub reap : Table → ℕ × WaitStatus → Table
unfolding reap_job
reap t event =
    let r = reap_job event.0 event.1 t.jobs in record t { jobs = r.0; pipe = t.pipe ++ r.1 }

-- The handler: `events` are the children that `waitpid` reports before it returns 0 or less.
unfoldable pub sigchld_handler : Table → List (ℕ × WaitStatus) → Table
unfolding reap
sigchld_handler t [] = t
sigchld_handler t (e ∷ events) = sigchld_handler (reap t e) events

abbrev pub new_proc : ProcState → ℕ × Bytes → Proc
new_proc s p = record { pid = p.0; name = take 63 p.1; state = s; exited = false }

abbrev pub new_job : ProcState → ℕ → ℕ → List (ℕ × Bytes) → Bytes → BackgroundJob
new_job s number pgid procs cmdline = record {
  job_number = number;
  pgid = pgid;
  procs = map (new_proc s) (take max_procs procs);
  remaining = length (take max_procs procs);
  active = true;
  cmdline = take 255 cmdline;
}

abbrev pub add_job : ProcState → Table → ℕ → List (ℕ × Bytes) → Bytes → Table
add_job s t pgid procs cmdline = record t {
  jobs = t.jobs ++ new_job s t.next_job_number pgid procs cmdline ∷ [];
  next_job_number = t.next_job_number + 1;
}

-- `procs` pairs `pids` with `names`.
unfoldable pub register_background_job : Table → ℕ → List (ℕ × Bytes) → Bytes → Table × List Message
register_background_job t pgid procs cmdline =
    if leb max_jobs (length t.jobs)
    then (t, table_full ∷ [])
    else (add_job running t pgid procs cmdline, started t.next_job_number pgid ∷ [])

unfoldable pub register_stopped_job : Table → ℕ → List (ℕ × Bytes) → Bytes → Table × List Message
register_stopped_job t pgid procs cmdline =
    if leb max_jobs (length t.jobs) then (t, table_full ∷ []) else (
      add_job ProcState.stopped t pgid procs cmdline,
      stopped_job t.next_job_number (take 255 cmdline) ∷ [],
    )

abbrev pub last_of : BackgroundJob → List BackgroundJob → BackgroundJob
last_of j [] = j
last_of j (k ∷ ks) = last_of k ks

abbrev pub init_of : BackgroundJob → List BackgroundJob → List BackgroundJob
init_of j [] = []
init_of j (k ∷ ks) = j ∷ init_of k ks

-- `jobs[i] = jobs[job_count - 1]; job_count--;` on the jobs behind place i.
abbrev pub refill : List BackgroundJob → List BackgroundJob
refill [] = []
refill (k ∷ ks) = last_of k ks ∷ init_of k ks

-- The first job that passes the test is removed; the job is handed out with the new list.
unfoldable pub remove_first :
    (BackgroundJob → Bool) → List BackgroundJob → Option (BackgroundJob × List BackgroundJob)
remove_first test [] = none
remove_first test (j ∷ js) =
    let rest = remove_first test js in
    if test j then some (j, refill js) else elim rest [ none ↦ none | some r ↦ some (r.0, j ∷ r.1) ]

abbrev pub first_name : List Proc → Bytes
first_name [] = []
first_name (p ∷ ps) = p.name

abbrev pub led_by : ℕ → BackgroundJob → Bool
led_by pid j = j.active && leader j.procs == pid

-- One notification read from the pipe.
unfoldable pub drain_one : List BackgroundJob → Notification → List BackgroundJob × List Message
unfolding remove_first
drain_one jobs n = elim (remove_first (led_by n.pid) jobs) [
  | none ↦ (jobs, [])
  | some r ↦ (r.1, finished (first_name r.0.procs) n.pid n.exited_normally ∷ [])
]

unfoldable pub drain_loop :
    List BackgroundJob → List Notification → List BackgroundJob × List Message
unfolding drain_one
drain_loop jobs [] = (jobs, [])
drain_loop jobs (n ∷ ns) =
    let one = drain_one jobs n in let rest = drain_loop one.0 ns in (rest.0, one.1 ++ rest.1)

unfoldable pub drain_background_notifications : Table → Table × List Message
unfolding drain_loop
drain_background_notifications t =
    let r = drain_loop t.jobs t.pipe in (record t { jobs = r.0; pipe = [] }, r.1)

-- One turn of the loop of `drain_background_notifications`, with this notification in front of the pipe.
unfoldable pub drained : Notification → List Notification → Table → Table
unfolding drain_one
drained n ns t = record t { jobs = (drain_one t.jobs n).0; pipe = ns }
