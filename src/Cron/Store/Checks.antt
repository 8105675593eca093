-- ===== src/Cron/Store/Checks.antt =====
-- The bookkeeping of check commands in src/cron-store.mjs.
use persistent_harness.Prelude.{
  ℕ, ◌+◌, String, Bool, true, false, not, ◌&&◌, none, some, ltb, leb, if◌then◌else◌, is_some,
  is_none, first,
}
use persistent_harness.Cron.Store.Schema.{
  PendingCheck, check_failed, Job, Tables, is_removed, has_id,
}
use persistent_harness.Cron.Store.Jobs.{get_job, update_jobs}

pub succeeded : ℕ → Job → Job
succeeded now job = record job {
  check_failures = 0;
  check_alerted = false;
  last_error = if ltb 0 job.check_failures then none else job.last_error;
  updated_at = now;
}

unfoldable pub record_check_success : String → ℕ → Tables → Tables
unfolding succeeded update_jobs
record_check_success job_id now = update_jobs (has_id job_id) (succeeded now)

abbrev pub failing : String → ℕ → Job → Job
failing error now job = record job {
  check_failures = job.check_failures + 1;
  last_error = some (check_failed error);
  updated_at = now;
}

abbrev pub alerted_row : Job → Job
alerted_row job = record job { check_alerted = true }

-- How often the check has failed in a row, and whether this failure is the one that wakes the agent.
unfoldable pub record_check_failure : String → String → ℕ → ℕ → Tables → (ℕ × Bool) × Tables
unfolding update_jobs get_job
record_check_failure job_id error threshold now t =
    let counted = update_jobs (has_id job_id) (failing error now) t in
    elim (get_job counted job_id) [
      | none ↦ ((0, false), counted)
      | some row ↦
          let alert = leb threshold row.check_failures && not row.check_alerted in
          (
            (row.check_failures, alert),
            (if alert then update_jobs (has_id job_id) alerted_row counted else counted),
          )
    ]

abbrev pub may_wait : String → Job → Bool
may_wait job_id job = has_id job_id job && not (is_removed job.state) && is_none job.pending_check

-- Whether the result was taken; one that waits already is not replaced.
unfoldable pub set_pending_check : String → PendingCheck → ℕ → Tables → Bool × Tables
unfolding update_jobs
set_pending_check job_id pending now t = (
  is_some (first (may_wait job_id) t.jobs),
  update_jobs (may_wait job_id)
      (λ job. record job { pending_check = some pending; updated_at = now }) t,
)
