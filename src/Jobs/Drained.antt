-- ===== src/Jobs/Drained.antt =====
-- No finished job outlives a drain, in a shell whose new jobs are led by fresh pids.
use c_shell.Base.{
  ℕ, ◌≡◌, ◌≢◌, refl, subst, sym, ◌∙◌, Bool, List, [], ◌∷◌, ◌++◌, length, leb, Bytes, arith,
  Bool-cases, Option-cases, inl, inr,
}
use c_shell.Jobs.{
  ProcState, running, stopped, Proc, BackgroundJob, Notification, Table, max_jobs, empty_table,
  WaitStatus, sigchld_handler, leader, remove_first, drain_loop, drained,
  drain_background_notifications, register_background_job, register_stopped_job, add_job,
}
use c_shell.Jobs.Control.{
  numbered, remove_job_by_number, mark_procs, mark_procs_of, mark_job_running, mark_job_stopped,
  update_first, set_job_cmdline,
}
use c_shell.Jobs.Invariant.{
  All, NotIn, Distinct, keys, mark_procs-counts, update_first-All, update_first-keys,
}
use c_shell.Jobs.Removal.{remove_first-All, remove_first-Distinct}
use c_shell.Jobs.Steps.{Step, Step-IsTable, Reach, Reach-IsTable}
use c_shell.Jobs.Notify.{led, Announced, IsLive, Drainable, drain_one-Drainable, Announced-IsLive}
use c_shell.Jobs.Life.{IsSound, sigchld_handler-IsSound}

-- A new job has a process, and its first pid leads no job of the table.
abbrev pub FreshLeader : Table → List (ℕ × Bytes) → Type 0
FreshLeader t [] = ⊥
FreshLeader t (p ∷ procs) = NotIn p.0 (keys led t.jobs)

-- The tables of a shell: from the empty one on, any calls in any order, new jobs having fresh
-- leaders.
pub data Life : Table → Type 0 where
  start : Life empty_table
  sigchld : {t : Table} (events : List (ℕ × WaitStatus)) → Life t → Life (sigchld_handler t events)
  background :
      {t : Table} (pgid : ℕ) (procs : List (ℕ × Bytes)) (cmdline : Bytes)
      → FreshLeader t procs
      → Life t
      → Life (register_background_job t pgid procs cmdline).0
  suspend :
      {t : Table} (pgid : ℕ) (procs : List (ℕ × Bytes)) (cmdline : Bytes)
      → FreshLeader t procs
      → Life t
      → Life (register_stopped_job t pgid procs cmdline).0
  drain :
      {t : Table} (n : Notification) (ns : List Notification)
      → t.pipe ≡ n ∷ ns
      → Life t
      → Life (drained n ns t)
  resume : {t : Table} (n : ℕ) → Life t → Life (mark_job_running t n).1
  stop : {t : Table} (n : ℕ) → Life t → Life (mark_job_stopped t n).1
  remove : {t : Table} (n : ℕ) → Life t → Life (remove_job_by_number t n).1
  rename : {t : Table} (pgid : ℕ) (cmdline : Bytes) → Life t → Life (set_job_cmdline t pgid cmdline)

Announced-concat :
    (ns : List Notification) (js : List BackgroundJob) (k : BackgroundJob)
    → All (Announced ns) js
    → Announced ns k
    → All (Announced ns) (js ++ k ∷ [])
Announced-concat ns [] k h a = (a, tt)
Announced-concat ns (j ∷ js) k h a = (h.0, Announced-concat ns js k h.1 a)

NotIn-leaders :
    (n : ℕ) (js : List BackgroundJob) (k : BackgroundJob)
    → NotIn n (keys led js)
    → n ≢ led k
    → NotIn n (keys led (js ++ k ∷ []))
NotIn-leaders n [] k h e = (e, tt)
NotIn-leaders n (j ∷ js) k h e = (h.0, NotIn-leaders n js k h.1 e)

Distinct-leaders :
    (js : List BackgroundJob) (k : BackgroundJob)
    → NotIn (led k) (keys led js)
    → Distinct (keys led js)
    → Distinct (keys led (js ++ k ∷ []))
Distinct-leaders [] k h d = (tt, tt)
Distinct-leaders (j ∷ js) k h d =
    (NotIn-leaders (led j) js k d.0 (λ e. h.0 (sym e)), Distinct-leaders js k h.1 d.1)

add_job-Drainable :
    (s : ProcState) (t : Table) (pgid : ℕ) (procs : List (ℕ × Bytes)) (cmdline : Bytes)
    → FreshLeader t procs
    → Drainable t.pipe t.jobs
    → Drainable t.pipe (add_job s t pgid procs cmdline).jobs
add_job-Drainable s t pgid [] cmdline fresh ok = absurd fresh
add_job-Drainable s t pgid (p ∷ procs) cmdline fresh ok = record {
  announced =
      Announced-concat t.pipe t.jobs _ ok.announced
        (record { active = refl; told = λ z. absurd (omega arith) });
  leaders = Distinct-leaders t.jobs _ fresh ok.leaders;
}

background-IsSound :
    (t : Table) (pgid : ℕ) (procs : List (ℕ × Bytes)) (cmdline : Bytes)
    → FreshLeader t procs
    → IsSound t
    → Drainable
        (register_background_job t pgid procs cmdline).0.pipe
        (register_background_job t pgid procs cmdline).0.jobs
unfolding register_background_job
background-IsSound t pgid procs cmdline fresh ok =
    elim (Bool-cases (leb max_jobs (length t.jobs))) [
      | inl e ↦ rw e ok.drainable
      | inr e ↦ rw e (add_job-Drainable running t pgid procs cmdline fresh ok.drainable)
    ]

suspend-IsSound :
    (t : Table) (pgid : ℕ) (procs : List (ℕ × Bytes)) (cmdline : Bytes)
    → FreshLeader t procs
    → IsSound t
    → Drainable
        (register_stopped_job t pgid procs cmdline).0.pipe
        (register_stopped_job t pgid procs cmdline).0.jobs
unfolding register_stopped_job
suspend-IsSound t pgid procs cmdline fresh ok = elim (Bool-cases (leb max_jobs (length t.jobs))) [
  | inl e ↦ rw e ok.drainable
  | inr e ↦ rw e (add_job-Drainable stopped t pgid procs cmdline fresh ok.drainable)
]

leader-mark_procs : (s : ProcState) (ps : List Proc) → leader (mark_procs s ps) ≡ leader ps
unfolding mark_procs
leader-mark_procs s [] = refl
leader-mark_procs s (p ∷ ps) = ground arith

mark_procs-leader : (s : ProcState) (j : BackgroundJob) → led (mark_procs_of s j) ≡ led j
mark_procs-leader s j = leader-mark_procs s j.procs

update_first-Drainable :
    (test : BackgroundJob → Bool) (change : BackgroundJob → BackgroundJob) (ns : List Notification)
    (js : List BackgroundJob)
    → ((j : BackgroundJob) → led (change j) ≡ led j)
    → ((j : BackgroundJob) → Announced ns j → Announced ns (change j))
    → Drainable ns js
    → Drainable ns (update_first test change js).1
update_first-Drainable test change ns js same keep ok = record {
  announced = update_first-All test change (Announced ns) js keep ok.announced;
  leaders = rw (update_first-keys test change led js same) ok.leaders;
}

mark-Drainable :
    (s : ProcState) (n : ℕ) (ns : List Notification) (js : List BackgroundJob)
    → Drainable ns js
    → Drainable ns (update_first (numbered n) (mark_procs_of s) js).1
mark-Drainable s n ns js =
    update_first-Drainable (numbered n) (mark_procs_of s) ns js (mark_procs-leader s) λ j a.
      record {
        active = a.active;
        told = λ z. rw (mark_procs-leader s j) (a.told (sym (mark_procs-counts s j.procs).1 ∙ z));
      }

remove_job_by_number-Drainable :
    (t : Table) (n : ℕ)
    → IsSound t
    → Drainable (remove_job_by_number t n).1.pipe (remove_job_by_number t n).1.jobs
unfolding remove_job_by_number
remove_job_by_number-Drainable t n ok = elim (Option-cases (remove_first (numbered n) t.jobs)) [
  | inl e ↦ rw (e, remove_job_by_number) ok.drainable
  | inr (r, e) ↦
      rw (e, remove_job_by_number)
        (record {
          announced =
              rw e at
                (remove_first-All (Announced t.pipe) (numbered n) t.jobs ok.drainable.announced);
          leaders = rw e at (remove_first-Distinct led (numbered n) t.jobs ok.drainable.leaders);
        })
]

set_job_cmdline-Drainable :
    (t : Table) (pgid : ℕ) (cmdline : Bytes)
    → IsSound t
    → Drainable (set_job_cmdline t pgid cmdline).pipe (set_job_cmdline t pgid cmdline).jobs
unfolding set_job_cmdline
set_job_cmdline-Drainable t pgid cmdline ok =
    update_first-Drainable _ _ t.pipe t.jobs (λ j. refl)
      (λ j a. record { active = a.active; told = a.told }) ok.drainable

pub Life-IsSound : {t : Table} → Life t → IsSound t
unfolding drained mark_job_running mark_job_stopped
Life-IsSound start = record {
  table = Reach-IsTable Reach.start;
  drainable = record { announced = tt; leaders = tt };
}
Life-IsSound (sigchld {t} events l) = sigchld_handler-IsSound t events (Life-IsSound l)
Life-IsSound (background {t} pgid procs cmdline fresh l) =
    let ok = Life-IsSound l in
    record {
      table = Step-IsTable (Step.background pgid procs cmdline) ok.table;
      drainable = background-IsSound t pgid procs cmdline fresh ok;
    }
Life-IsSound (suspend {t} pgid procs cmdline fresh l) =
    let ok = Life-IsSound l in
    record {
      table = Step-IsTable (Step.suspend pgid procs cmdline) ok.table;
      drainable = suspend-IsSound t pgid procs cmdline fresh ok;
    }
Life-IsSound (drain {t} n ns e l) =
    let ok = Life-IsSound l in
    record {
      table = Step-IsTable (Step.drain n ns e) ok.table;
      drainable = drain_one-Drainable n ns t.jobs (subst (λ p. Drainable p t.jobs) e ok.drainable);
    }
Life-IsSound (resume {t} n l) =
    let ok = Life-IsSound l in
    record {
      table = Step-IsTable (Step.resume n) ok.table;
      drainable = mark-Drainable running n t.pipe t.jobs ok.drainable;
    }
Life-IsSound (stop {t} n l) =
    let ok = Life-IsSound l in
    record {
      table = Step-IsTable (Step.stop n) ok.table;
      drainable = mark-Drainable stopped n t.pipe t.jobs ok.drainable;
    }
Life-IsSound (remove {t} n l) =
    let ok = Life-IsSound l in
    record {
      table = Step-IsTable (Step.remove n) ok.table;
      drainable = remove_job_by_number-Drainable t n ok;
    }
Life-IsSound (rename {t} pgid cmdline l) =
    let ok = Life-IsSound l in
    record {
      table = Step-IsTable (Step.rename pgid cmdline) ok.table;
      drainable = set_job_cmdline-Drainable t pgid cmdline ok;
    }

-- The loop of `drain_background_notifications`: the handler may run before each `read`, and an empty pipe
-- ends it.
pub data Drains : Table → Table → Type 0 where
  empty : {t : Table} → t.pipe ≡ [] → Drains t t
  turn :
      {t u : Table} (n : Notification) (ns : List Notification)
      → t.pipe ≡ n ∷ ns
      → Drains (drained n ns t) u
      → Drains t u
  signal :
      {t u : Table} (events : List (ℕ × WaitStatus))
      → Drains (sigchld_handler t events) u
      → Drains t u

drain_loop-Drains :
    (ns : List Notification) (t : Table)
    → t.pipe ≡ ns
    → Drains t (record t { jobs = (drain_loop t.jobs ns).0; pipe = [] })
unfolding drain_loop drained
drain_loop-Drains [] t e = subst (λ p. Drains t (record t { pipe = p })) e (empty {t = t} e)
drain_loop-Drains (n ∷ ns) t e = turn n ns e (drain_loop-Drains ns (drained n ns t) refl)

Drains-IsLive : {t u : Table} → Drains t u → Life t → All IsLive u.jobs
Drains-IsLive {t} (empty e) l =
    Announced-IsLive t.jobs
      (subst (λ p. All (Announced p) t.jobs) e (Life-IsSound l).drainable.announced)
Drains-IsLive (turn n ns e d) l = Drains-IsLive d (Life.drain n ns e l)
Drains-IsLive (signal events d) l = Drains-IsLive d (Life.sigchld events l)

-- Whatever happened before: `drain_background_notifications` runs to the end of the pipe, and wherever
-- the handler runs between the turns of its loop, then every job in the table has a process that has not
-- exited: a job is announced by the handler when its last process exits, and is removed by the drain. New
-- jobs are taken to have a process, the first with a pid that leads no job of the table, and SIGCHLD not
-- to interrupt a drain inside a turn, where a job is moved.
pub drain-IsLive :
    {t : Table}
    → Life t
    → Drains t (drain_background_notifications t).0 × ((u : Table) → Drains t u → All IsLive u.jobs)
unfolding drain_background_notifications
drain-IsLive {t} l = (drain_loop-Drains t.pipe t refl, λ u d. Drains-IsLive d l)
