-- ===== src/Jobs/Life.antt =====
-- Finished jobs over time: the handler announces a job when its last process exits, so that the next
-- drain removes it.
use c_shell.Base.{
  ℕ, ◌-◌, ◌≡◌, refl, true, List, [], ◌∷◌, ◌++◌, Option, some, none, ◌==◌, arith, Bool-cases,
  Option-cases, inl, inr,
}
use c_shell.Jobs.{
  Proc, BackgroundJob, Notification, Table, WaitStatus, is_end, reap_proc, reaped, notify, reap_job,
  reap, sigchld_handler, leader,
}
use c_shell.Jobs.Invariant.{All, keys, live_count, IsJob, IsTable, Reaped, reap_proc-Reaped}
use c_shell.Jobs.Steps.{sigchld, Step-IsTable}
use c_shell.Jobs.Notify.{HasPid, led, Announced, Drainable}

HasPid-append : (pid : ℕ) (ns more : List Notification) → HasPid pid ns → HasPid pid (ns ++ more)
HasPid-append pid [] more h = absurd h
HasPid-append pid (n ∷ ns) more (inl e) = inl e
HasPid-append pid (n ∷ ns) more (inr h) = inr (HasPid-append pid ns more h)

HasPid-last :
    (pid : ℕ) (ns : List Notification) (n : Notification) → n.pid ≡ pid → HasPid pid (ns ++ n ∷ [])
HasPid-last pid [] n e = inl e
HasPid-last pid (m ∷ ns) n e = inr (HasPid-last pid ns n e)

Announced-append :
    (ns more : List Notification) (js : List BackgroundJob)
    → All (Announced ns) js
    → All (Announced (ns ++ more)) js
Announced-append ns more [] h = tt
Announced-append ns more (j ∷ js) h = (
  record { active = h.0.active; told = λ z. HasPid-append (led j) ns more (h.0.told z) },
  Announced-append ns more js h.1,
)

-- The first process keeps its pid.
SameLeader : List Proc → Option (List Proc) → Type 0
SameLeader ps none = Unit
SameLeader ps (some qs) = leader qs ≡ leader ps

reap_proc-SameLeader :
    (pid : ℕ) (status : WaitStatus) (ps : List Proc) → SameLeader ps (reap_proc pid status ps)
unfolding reap_proc SameLeader
reap_proc-SameLeader pid status [] = tt
reap_proc-SameLeader pid status (p ∷ ps) = ground arith

reaped-Announced :
    (next pid : ℕ) (status : WaitStatus) (ns : List Notification) (j : BackgroundJob)
    (qs : List Proc)
    → IsJob next j
    → Announced ns j
    → reap_proc pid status j.procs ≡ some qs
    → Announced (ns ++ notify status j qs) (reaped status j qs)
unfolding SameLeader
reaped-Announced next pid status ns j qs ok a e =
    let counts : Reaped status j.procs (some qs) = rw e at (reap_proc-Reaped pid status j.procs) in
    record {
      active = ok.active;
      told = λ z. elim (Bool-cases (is_end status)) [
        | inl f ↦
            let last : ((j.remaining - 1) == 0) ≡ true = ground (arith, ok.remaining) in
            rw (f, last) (HasPid-last (leader qs) ns _ refl)
        | inr f ↦
            let same : leader qs ≡ leader j.procs =
              rw e at (reap_proc-SameLeader pid status j.procs) in
            let zero_before : live_count j.procs ≡ 0 = ground arith in
            HasPid-append (leader qs) ns _ (rw same (a.told zero_before))
      ];
    }

reap_job-Announced :
    (next pid : ℕ) (status : WaitStatus) (ns : List Notification) (js : List BackgroundJob)
    → All (IsJob next) js
    → All (Announced ns) js
    → All (Announced (ns ++ (reap_job pid status js).1)) (reap_job pid status js).0
unfolding reap_job
reap_job-Announced next pid status ns [] ok h = tt
reap_job-Announced next pid status ns (j ∷ js) ok h =
    elim (Option-cases (reap_proc pid status j.procs)) [
      | inl e ↦
          rw (ok.0.active, e)
            (
              record { active = ok.0.active; told = λ z. HasPid-append (led j) ns _ (h.0.told z) },
              reap_job-Announced next pid status ns js ok.1 h.1,
            )
      | inr (qs, e) ↦
          rw (ok.0.active, e)
            (reaped-Announced next pid status ns j qs ok.0 h.0 e, Announced-append ns _ js h.1)
    ]

reap_job-leaders :
    (pid : ℕ) (status : WaitStatus) (js : List BackgroundJob)
    → keys led (reap_job pid status js).0 ≡ keys led js
unfolding reap_job SameLeader
reap_job-leaders pid status [] = refl
reap_job-leaders pid status (j ∷ js) =
    ground (arith, reap_job-leaders pid status js, reap_proc-SameLeader pid status j.procs)

-- The table at any time, its finished jobs announced.
pub record IsSound (t : Table) : Type 0 where
  pub table : IsTable t
  pub drainable : Drainable t.pipe t.jobs

reap-IsSound : (t : Table) (event : ℕ × WaitStatus) → IsSound t → IsSound (reap t event)
unfolding reap sigchld_handler
reap-IsSound t (pid, status) ok = record {
  table = Step-IsTable (sigchld ((pid, status) ∷ [])) ok.table;
  drainable = record {
    announced =
        reap_job-Announced t.next_job_number pid status t.pipe t.jobs ok.table.jobs_ok
          ok.drainable.announced;
    leaders = rw (reap_job-leaders pid status t.jobs) ok.drainable.leaders;
  };
}

pub sigchld_handler-IsSound :
    (t : Table) (events : List (ℕ × WaitStatus)) → IsSound t → IsSound (sigchld_handler t events)
unfolding sigchld_handler
sigchld_handler-IsSound t [] ok = ok
sigchld_handler-IsSound t (e ∷ events) ok =
    sigchld_handler-IsSound (reap t e) events (reap-IsSound t e ok)
