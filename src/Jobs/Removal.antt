-- ===== src/Jobs/Removal.antt =====
-- The invariant of the job table and the removal of a job, whose place the last one takes
-- (c-shell/src/background.c).
use c_shell.Base.{ℕ, suc, ◌+◌, ◌≡◌, ◌≢◌, refl, sym, ap, Bool, List, [], ◌∷◌, some, length, arith}
use c_shell.Jobs.{BackgroundJob, Notification, Table, last_of, init_of, refill, remove_first}
use c_shell.Jobs.Invariant.{All, NotIn, Distinct, keys, IsJob, IsTable, OnSome}

-- Removing a job by moving the last one to its place.
module _ (P : BackgroundJob → Type 0) where
  last_of-All : (k : BackgroundJob) (ks : List BackgroundJob) → All P (k ∷ ks) → P (last_of k ks)
  last_of-All k [] h = h.0
  last_of-All k (l ∷ ks) h = last_of-All l ks h.1

  init_of-All :
      (k : BackgroundJob) (ks : List BackgroundJob) → All P (k ∷ ks) → All P (init_of k ks)
  init_of-All k [] h = tt
  init_of-All k (l ∷ ks) h = (h.0, init_of-All l ks h.1)

  pub refill-All : (js : List BackgroundJob) → All P js → All P (refill js)
  refill-All [] h = tt
  refill-All (k ∷ ks) h = (last_of-All k ks h, init_of-All k ks h)

  pub remove_first-All :
      (test : BackgroundJob → Bool) (js : List BackgroundJob)
      → All P js
      → OnSome (λ r. All P r.1) (remove_first test js)
  unfolding remove_first
  remove_first-All test [] h = tt
  remove_first-All test (j ∷ js) h = ground (arith, refill-All js h.1, remove_first-All test js h.1)

module _ (key : BackgroundJob → ℕ) where
  pub NotIn-last_of :
      (n : ℕ) (k : BackgroundJob) (ks : List BackgroundJob)
      → NotIn n (keys key (k ∷ ks))
      → n ≢ key (last_of k ks)
  NotIn-last_of n k [] h = h.0
  NotIn-last_of n k (l ∷ ks) h = NotIn-last_of n l ks h.1

  NotIn-init_of :
      (n : ℕ) (k : BackgroundJob) (ks : List BackgroundJob)
      → NotIn n (keys key (k ∷ ks))
      → NotIn n (keys key (init_of k ks))
  NotIn-init_of n k [] h = tt
  NotIn-init_of n k (l ∷ ks) h = (h.0, NotIn-init_of n l ks h.1)

  Distinct-init_of :
      (k : BackgroundJob) (ks : List BackgroundJob)
      → Distinct (keys key (k ∷ ks))
      → NotIn (key (last_of k ks)) (keys key (init_of k ks)) × Distinct (keys key (init_of k ks))
  Distinct-init_of k [] h = (tt, tt)
  Distinct-init_of k (l ∷ ks) h =
      let rest = Distinct-init_of l ks h.1 in
      (
        (λ e. NotIn-last_of (key k) l ks h.0 (sym e), rest.0),
        (NotIn-init_of (key k) l ks h.0, rest.1),
      )

  NotIn-refill :
      (n : ℕ) (js : List BackgroundJob) → NotIn n (keys key js) → NotIn n (keys key (refill js))
  NotIn-refill n [] h = tt
  NotIn-refill n (k ∷ ks) h = (NotIn-last_of n k ks h, NotIn-init_of n k ks h)

  Distinct-refill :
      (js : List BackgroundJob) → Distinct (keys key js) → Distinct (keys key (refill js))
  Distinct-refill [] h = tt
  Distinct-refill (k ∷ ks) h = Distinct-init_of k ks h

length-init_of : (k : BackgroundJob) (ks : List BackgroundJob) → length (init_of k ks) ≡ length ks
length-init_of k [] = refl
length-init_of k (l ∷ ks) = ap suc (length-init_of l ks)

length-refill : (js : List BackgroundJob) → length (refill js) ≡ length js
length-refill [] = refl
length-refill (k ∷ ks) = ap suc (length-init_of k ks)

module _ (key : BackgroundJob → ℕ) (test : BackgroundJob → Bool) where
  remove_first-NotIn :
      (n : ℕ) (js : List BackgroundJob)
      → NotIn n (keys key js)
      → OnSome (λ r. NotIn n (keys key r.1)) (remove_first test js)
  unfolding remove_first
  remove_first-NotIn n [] h = tt
  remove_first-NotIn n (j ∷ js) h =
      ground (arith, NotIn-refill key n js h.1, remove_first-NotIn n js h.1)

  pub remove_first-Distinct :
      (js : List BackgroundJob)
      → Distinct (keys key js)
      → OnSome (λ r. Distinct (keys key r.1)) (remove_first test js)
  unfolding remove_first
  remove_first-Distinct [] h = tt
  remove_first-Distinct (j ∷ js) h = ground (
    arith,
    Distinct-refill key js h.1,
    remove_first-Distinct js h.1,
    remove_first-NotIn (key j) js h.0,
  )

module _ (test : BackgroundJob → Bool) where
  length-remove_first :
      (js : List BackgroundJob) → OnSome (λ r. length js ≡ length r.1 + 1) (remove_first test js)
  unfolding remove_first
  length-remove_first [] = tt
  length-remove_first (j ∷ js) = ground (arith, length-refill js, length-remove_first js)

-- All three at once, for a table that keeps its other fields.
pub remove_first-IsTable :
    (t : Table) (test : BackgroundJob → Bool) (r : BackgroundJob × List BackgroundJob)
    (pipe : List Notification)
    → remove_first test t.jobs ≡ some r
    → IsTable t
    → IsTable (record t { jobs = r.1; pipe = pipe })
remove_first-IsTable t test r pipe e ok = record {
  next_positive = ok.next_positive;
  few_jobs =
      let l = rw e at (length-remove_first test t.jobs) in let few = ok.few_jobs in omega arith;
  jobs_ok = rw e at (remove_first-All (IsJob t.next_job_number) test t.jobs ok.jobs_ok);
  distinct = rw e at (remove_first-Distinct (λ j. j.job_number) test t.jobs ok.distinct);
}
