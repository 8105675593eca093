-- ===== src/Cron/Store/Sound/ClaimCalls.antt =====
-- The claims of src/cron-store.mjs keep the invariant of the tables.
use persistent_harness.Prelude.{
  ℕ, refl, String, Bool, Bool-cases, Option-cases, inl, inr, Option, none, some, arith, is_some,
  is_none, first, ok, ◌>>=◌,
}
use persistent_harness.Cron.Store.Schema.{
  Job, Run, Tables, job_missing, already_running, PendingCheck, has_id, active_for, by_hand,
  insert_run, ensure, or_throw,
}
use persistent_harness.Cron.Store.Jobs.{get_job, update_jobs, live_job}
use persistent_harness.Cron.Store.Claims.{
  new_run, due_at, scheduled_run, fired_job, claim_due, claim_scheduled_run, handed_job,
  claim_manual_run, defers_now, deferred_row, defer_checked_occurrence, awaiting, checked_job,
  checked_run, claim_checked_run,
}
use persistent_harness.Cron.Store.History.{after, after-bind}
use persistent_harness.Cron.Store.Sound.{IsSound}
use persistent_harness.Cron.Store.Sound.Rules.{KeepsJob, insert_run-IsSound, update_jobs-IsSound}
use persistent_harness.Cron.Store.Sound.RunCalls.{LeavesJob-IsSound}

fired_job-KeepsJob :
    (p : Job → Bool) (scheduled_at : ℕ) (next_run_at : Option ℕ) (active : Option Run) (now : ℕ)
    → KeepsJob p (fired_job scheduled_at next_run_at active now)
unfolding fired_job
fired_job-KeepsJob p scheduled_at next_run_at active now = record {
  id = λ job. refl;
  row = λ job h c. ground arith;
}

claim_due-IsSound :
    (run_id : String) (scheduled_at : ℕ) (next_run_at : Option ℕ) (now : ℕ) (job : Job) (t : Tables)
    → IsSound t
    → IsSound (after (claim_due run_id scheduled_at next_run_at now job t) t)
unfolding claim_due
claim_due-IsSound run_id scheduled_at next_run_at now job t s =
    let active = first (active_for job.id) t.runs in
    let run = scheduled_run run_id job scheduled_at active now in
    after-bind IsSound t (insert_run run t) _ s λ t' h.
      update_jobs-IsSound (has_id job.id) (fired_job scheduled_at next_run_at active now) t'
        (fired_job-KeepsJob (has_id job.id) scheduled_at next_run_at active now)
        (insert_run-IsSound run t t' h s)

pub claim_scheduled_run-IsSound :
    (job_id run_id : String) (scheduled_at : ℕ) (next_run_at : Option ℕ) (now : ℕ) (t : Tables)
    → IsSound t
    → IsSound (after (claim_scheduled_run job_id run_id scheduled_at next_run_at now t) t)
unfolding claim_scheduled_run
claim_scheduled_run-IsSound job_id run_id scheduled_at next_run_at now t s =
    elim (Option-cases (get_job t job_id)) [
      | inl e ↦ rw (e, claim_scheduled_run) s
      | inr (job, e) ↦ elim (Bool-cases (due_at scheduled_at job)) [
        | inl due ↦
            rw (e, claim_scheduled_run)
              (rw due (claim_due-IsSound run_id scheduled_at next_run_at now job t s))
        | inr early ↦ rw (e, claim_scheduled_run) (rw early s)
      ]
    ]

pub claim_manual_run-IsSound :
    (job_id run_id : String) (scheduled_at now : ℕ) (t : Tables)
    → IsSound t
    → IsSound (after (claim_manual_run job_id run_id scheduled_at now t) t)
unfolding claim_manual_run
claim_manual_run-IsSound job_id run_id scheduled_at now t s =
    after-bind IsSound t (or_throw job_missing (first (live_job job_id) t.jobs)) _ s λ job _.
      after-bind IsSound t (ensure already_running (is_none (first (active_for job_id) t.runs))) _ s
        λ _ _.
          after-bind IsSound t (insert_run (new_run run_id job by_hand scheduled_at now) t) _ s
            λ t' h.
              LeavesJob-IsSound (has_id job_id) (handed_job scheduled_at now) t'
                (record {
                  id = λ job. refl;
                  enabled = λ job. refl;
                  state = λ job. refl;
                  next_run_at = λ job. refl;
                })
                (insert_run-IsSound (new_run run_id job by_hand scheduled_at now) t t' h s)

pub defer_checked_occurrence-IsSound :
    (job_id : String) (scheduled_at : ℕ) (next_run_at : Option ℕ) (now : ℕ) (t : Tables)
    → IsSound t
    → IsSound (defer_checked_occurrence job_id scheduled_at next_run_at now t).1
unfolding defer_checked_occurrence
defer_checked_occurrence-IsSound job_id scheduled_at next_run_at now t s =
    update_jobs-IsSound (defers_now job_id scheduled_at) (deferred_row next_run_at now) t
      (record { id = λ job. refl; row = λ job h c. ground arith }) s

checked_job-KeepsJob :
    (p : Job → Bool) (pending : PendingCheck) (now : ℕ) → KeepsJob p (checked_job pending now)
unfolding checked_job
checked_job-KeepsJob p pending now = record { id = λ job. refl; row = λ job h c. ground arith }

pub claim_checked_run-IsSound :
    (job_id run_id : String) (now : ℕ) (t : Tables)
    → IsSound t
    → IsSound (after (claim_checked_run job_id run_id now t) t)
unfolding claim_checked_run
claim_checked_run-IsSound job_id run_id now t s =
    elim (Option-cases (first (awaiting job_id) t.jobs)) [
      | inl e ↦ rw (e, claim_checked_run) s
      | inr (job, e) ↦ elim (Bool-cases (is_some (first (active_for job_id) t.runs))) [
        | inl busy ↦ rw (e, claim_checked_run) (rw busy s)
        | inr idle ↦ rw (e, claim_checked_run) (rw idle (taken job job.pending_check))
      ]
    ]
  where
    taken :
        (job : Job) (pending : Option PendingCheck)
        → IsSound (
            after {A = Option (Run × Job)}
              (elim pending [
                | none ↦ ok (none, t)
                | some p ↦ insert_run (checked_run run_id job p now) t >>= λ t'. ok (
                  some (checked_run run_id job p now, checked_job p now job),
                  update_jobs (has_id job_id) (checked_job p now) t',
                )
              ])
              t)
    taken job none = s
    taken job (some p) =
        after-bind IsSound t (insert_run (checked_run run_id job p now) t) _ s λ t' h.
          update_jobs-IsSound (has_id job_id) (checked_job p now) t'
            (checked_job-KeepsJob (has_id job_id) p now)
            (insert_run-IsSound (checked_run run_id job p now) t t' h s)
