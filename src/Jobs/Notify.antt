-- ===== src/Jobs/Notify.antt =====
-- The notifications of the SIGCHLD handler: every job whose processes have all exited is announced,
-- and is gone when the pipe has been drained.
use c_shell.Base.{
  ℕ, ◌≡◌, ◌≢◌, ◌⊎◌, true, List, [], ◌∷◌, Option, some, none, ◌==◌, arith, subst, ==_iff, Bool-cases,
  Option-cases, inl, inr,
}
use c_shell.Jobs.{BackgroundJob, Notification, leader, remove_first, led_by, drain_one}
use c_shell.Jobs.Invariant.{All, NotIn, Distinct, keys, live_count}
use c_shell.Jobs.Removal.{refill-All, remove_first-All, remove_first-Distinct}

-- A notification for this pid is in the pipe.
abbrev pub HasPid : ℕ → List Notification → Type 0
HasPid pid [] = ⊥
HasPid pid (n ∷ ns) = (n.pid ≡ pid) ⊎ HasPid pid ns

abbrev pub led : BackgroundJob → ℕ
led j = leader j.procs

-- If every process of the job has exited, its notification is in the pipe.
pub record Announced (pipe : List Notification) (j : BackgroundJob) : Type 0 where
  pub active : j.active ≡ true
  pub told : live_count j.procs ≡ 0 → HasPid (led j) pipe

abbrev pub IsLive : BackgroundJob → Type 0
IsLive j = live_count j.procs ≢ 0

NotIn-All :
    (pid : ℕ) (js : List BackgroundJob) → NotIn pid (keys led js) → All (λ j. pid ≢ led j) js
NotIn-All pid [] h = tt
NotIn-All pid (j ∷ js) h = (h.0, NotIn-All pid js h.1)

-- After the first job led by `pid` is removed, no job is.
abbrev NoneLed : ℕ → List BackgroundJob → Option (BackgroundJob × List BackgroundJob) → Type 0
NoneLed pid js none = All (λ j. pid ≢ led j) js
NoneLed pid js (some r) = All (λ j. pid ≢ led j) r.1

remove_first-NoneLed :
    (pid : ℕ) (pipe : List Notification) (js : List BackgroundJob)
    → All (Announced pipe) js
    → Distinct (keys led js)
    → NoneLed pid js (remove_first (led_by pid) js)
unfolding remove_first
remove_first-NoneLed pid pipe [] ok d = tt
remove_first-NoneLed pid pipe (j ∷ js) ok d = elim (Bool-cases (led j == pid)) [
  | inl e ↦
      rw (ok.0.active, e)
        (refill-All (λ k. pid ≢ led k) js
          (subst (λ n. All (λ k. n ≢ led k) js) ((==_iff _ _).0 e) (NotIn-All (led j) js d.0)))
  | inr e ↦ ground (arith, ok.0.active, remove_first-NoneLed pid pipe js ok.1 d.1)
]

-- Of the jobs announced by `n` and the notifications behind it, those not led by `n.pid` are
-- announced by those behind it.
Announced-rest :
    (n : Notification) (ns : List Notification) (js : List BackgroundJob)
    → All (Announced (n ∷ ns)) js
    → All (λ j. n.pid ≢ led j) js
    → All (Announced ns) js
Announced-rest n ns [] ok other = tt
Announced-rest n ns (j ∷ js) ok other = (
  record {
    active = ok.0.active;
    told = λ z. elim (ok.0.told z) [ inl e ↦ absurd (other.0 e) | inr h ↦ h ];
  },
  Announced-rest n ns js ok.1 other.1,
)

-- What draining needs: finished jobs are announced, and no two jobs have the same first pid.
pub record Drainable (pipe : List Notification) (js : List BackgroundJob) : Type 0 where
  pub announced : All (Announced pipe) js
  pub leaders : Distinct (keys led js)

pub drain_one-Drainable :
    (n : Notification) (ns : List Notification) (js : List BackgroundJob)
    → Drainable (n ∷ ns) js
    → Drainable ns (drain_one js n).0
unfolding drain_one
drain_one-Drainable n ns js ok = elim (Option-cases (remove_first (led_by n.pid) js)) [
  | inl e ↦
      rw (e, drain_one)
        (record {
          announced =
              Announced-rest n ns js ok.announced
                (rw e at (remove_first-NoneLed n.pid (n ∷ ns) js ok.announced ok.leaders));
          leaders = ok.leaders;
        })
  | inr (r, e) ↦
      rw (e, drain_one)
        (record {
          announced =
              Announced-rest n ns r.1
                (rw e at (remove_first-All (Announced (n ∷ ns)) (led_by n.pid) js ok.announced))
                (rw e at (remove_first-NoneLed n.pid (n ∷ ns) js ok.announced ok.leaders));
          leaders = rw e at (remove_first-Distinct led (led_by n.pid) js ok.leaders);
        })
]

pub Announced-IsLive : (js : List BackgroundJob) → All (Announced []) js → All IsLive js
Announced-IsLive [] h = tt
Announced-IsLive (j ∷ js) h = (h.0.told, Announced-IsLive js h.1)
