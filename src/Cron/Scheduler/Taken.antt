-- ===== src/Cron/Scheduler/Taken.antt =====
-- The runs that the claims of src/cron-store.mjs give to the scheduler of src/cron-scheduler.mjs.
use persistent_harness.Prelude.{
  ℕ, ◌≡◌, arith, refl, sym, ap, subst, String, true, Option, none, some, is_some, first, first-sat,
  eq_iff, inl, inr, ◌⊎◌, Bool-cases, Option-cases, Outcome, ok, >>=-elim, ok_inj, ◌>>=◌,
}
use persistent_harness.Cron.Store.Schema.{
  claimed, by_schedule, Job, Run, Tables, CronError, PendingCheck, has_id, active_for, insert_run,
}
use persistent_harness.Cron.Store.Jobs.{get_job, update_jobs}
use persistent_harness.Cron.Store.Claims.{
  Claim, not_due, claimed_run, skipped_run, claim_result, due_at, scheduled_run, fired_job,
  claim_due, claim_scheduled_run, awaiting, checked_run, checked_job, claim_checked_run,
}

-- A run that may be dispatched: claimed now by its schedule and not over. Its id is the one that
-- `run_id` makes for its job and its occurrence, or, with a check's result, for its job and some time.
pub record IsLaunched (run_id : String → ℕ → String) (now : ℕ) (run : Run) : Type 0 where
  pub status : run.status ≡ claimed
  pub source : run.source ≡ by_schedule
  pub claimed_at : run.claimed_at ≡ now
  pub completed_at : run.completed_at ≡ none
  pub id :
      ((run.check ≡ none) × (run.id ≡ run_id run.job_id run.scheduled_at))
      ⊎ ((is_some run.check ≡ true) × (at : ℕ) × (run.id ≡ run_id run.job_id at))

module _ (run_id : String → ℕ → String) (now : ℕ) where
  abbrev pub Launches : Claim → Type 0
  Launches not_due = Unit {0}
  Launches (claimed_run run job) = IsLaunched run_id now run
  Launches (skipped_run run job) = Unit {0}

  abbrev pub LaunchesChecked : Option (Run × Job) → Type 0
  LaunchesChecked none = Unit {0}
  LaunchesChecked (some (run, job)) = IsLaunched run_id now run

  claim_due-Launches :
      (job_id : String) (at : ℕ) (next : Option ℕ) (job : Job) (t t' : Tables) (c : Claim)
      → job.id ≡ job_id
      → claim_due (run_id job_id at) at next now job t ≡ ok (c, t')
      → Launches c
  unfolding claim_due scheduled_run
  claim_due-Launches job_id at next job t t' c own h =
      let active = first (active_for job.id) t.runs in
      >>=-elim (insert_run (scheduled_run (run_id job_id at) job at active now) t) _ (c, t') h
        λ t1 e h1. subst (λ x. Launches x.0) (ok_inj h1) (new (first (active_for job.id) t.runs))
    where
      new :
          (o : Option Run)
          → Launches (
              claim_result o
                (scheduled_run (run_id job_id at) job at o now)
                (fired_job at next o now job))
      new none = record {
        status = refl;
        source = refl;
        claimed_at = refl;
        completed_at = refl;
        id = inl (refl, ap (λ i. run_id i at) (sym own));
      }
      new (some r) = tt

  pub claim_scheduled_run-Launches :
      (job_id : String) (at : ℕ) (next : Option ℕ) (t t' : Tables) (c : Claim)
      → claim_scheduled_run job_id (run_id job_id at) at next now t ≡ ok (c, t')
      → Launches c
  unfolding claim_scheduled_run get_job
  claim_scheduled_run-Launches job_id at next t t' c h = elim (Option-cases (get_job t job_id)) [
    | inl e ↦ idle (rw (e, claim_scheduled_run) at h)
    | inr (job, e) ↦ elim (Bool-cases (due_at at job)) [
      | inl due ↦
          claim_due-Launches job_id at next job t t' c
            ((eq_iff job.id job_id).0 (first-sat (has_id job_id) t.jobs job e))
            (rw (e, due, claim_scheduled_run) at h)
      | inr early ↦ idle (rw (e, early, claim_scheduled_run) at h)
    ]
  ]
    where
      idle :
          ◌≡◌ {A = Outcome CronError (Claim × Tables)} (ok (not_due, t)) (ok (c, t')) → Launches c
      idle e = subst (λ x. Launches x.0) (ok_inj e) tt

  pub claim_checked_run-LaunchesChecked :
      (job_id : String) (at : ℕ) (t t' : Tables) (o : Option (Run × Job))
      → claim_checked_run job_id (run_id job_id at) now t ≡ ok (o, t')
      → LaunchesChecked o
  unfolding claim_checked_run
  claim_checked_run-LaunchesChecked job_id at t t' o h =
      elim (Option-cases (first (awaiting job_id) t.jobs)) [
        | inl e ↦ idle (rw (e, claim_checked_run) at h)
        | inr (job, e) ↦ elim (Bool-cases (is_some (first (active_for job_id) t.runs))) [
          | inl busy ↦ idle (rw (e, busy, claim_checked_run) at h)
          | inr free ↦ elim (Option-cases job.pending_check) [
            | inl none_waits ↦ idle (rw (e, free, none_waits, claim_checked_run) at h)
            | inr (p, waits) ↦
                taken job p (own job (first-sat (awaiting job_id) t.jobs job e))
                  (rw (e, free, waits, claim_checked_run) at h)
          ]
        ]
      ]
    where
      idle :
          ◌≡◌ {A = Outcome CronError (Option (Run × Job) × Tables)} (ok (none, t)) (ok (o, t'))
          → LaunchesChecked o
      idle e = subst (λ x. LaunchesChecked x.0) (ok_inj e) tt

      own : (job : Job) → awaiting job_id job ≡ true → job.id ≡ job_id
      own job h = (eq_iff job.id job_id).0 (ground arith)

      taken :
          (job : Job) (p : PendingCheck)
          → job.id ≡ job_id
          → ◌≡◌ {A = Outcome CronError (Option (Run × Job) × Tables)}
              (insert_run (checked_run (run_id job_id at) job p now) t >>= λ t1. ok (
                some (checked_run (run_id job_id at) job p now, checked_job p now job),
                update_jobs (has_id job_id) (checked_job p now) t1,
              ))
              (ok (o, t'))
          → LaunchesChecked o
      taken job p same h =
          >>=-elim (insert_run (checked_run (run_id job_id at) job p now) t) _ (o, t') h
            λ t1 e h1.
              subst (λ x. LaunchesChecked x.0) (ok_inj h1)
                (record {
                  status = refl;
                  source = refl;
                  claimed_at = refl;
                  completed_at = refl;
                  id = inr (refl, at, ap (λ i. run_id i at) (sym same));
                })
