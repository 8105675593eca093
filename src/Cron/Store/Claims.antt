-- ===== src/Cron/Store/Claims.antt =====
-- How src/cron-store.mjs gives a job a run: by its schedule, by hand, or with a check's result.
use persistent_harness.Prelude.{
  ℕ, ◌+◌, String, Bool, false, not, ◌&&◌, ◌||◌, Option, none, some, List, leb, ◌==◌, if◌then◌else◌,
  is_some, is_none, first, select, order_by, text_le, take, ltb, ok, ◌>>=◌,
}
use persistent_harness.Cron.Store.Schema.{
  scheduled, completed, Status, claimed, skipped_overlap, Source, by_schedule, by_hand,
  PendingCheck, Fault, overlap_with, Job, Run, Tables, job_missing, already_running, Method,
  is_removed, is_scheduled, has_id, active_for, insert_run, or_throw, ensure, ◌>>◌,
}
use persistent_harness.Cron.Store.Jobs.{get_job, update_jobs, live_job}

-- What `claimScheduledRun` returns.
pub data Claim : Type 0 where
  not_due : Claim
  claimed_run : Run → Job → Claim
  skipped_run : Run → Job → Claim

abbrev pub new_run : String → Job → Source → ℕ → ℕ → Run
new_run run_id job source scheduled_at now = record {
  id = run_id;
  job_id = job.id;
  source = source;
  scheduled_at = scheduled_at;
  status = claimed;
  mode_requested = job.execution_mode;
  mode_used = none;
  session_id = none;
  fallback_reason = none;
  input_id = none;
  output = none;
  error = none;
  claimed_at = now;
  started_at = none;
  completed_at = none;
  notification_intent = job.notification_intent;
  disposition = none;
  notification_body = none;
  evaluated_at = none;
  recorded = false;
  check = none;
}

-- The job has fired as often as it may.
abbrev exhausted : Job → Bool
exhausted job = elim job.repeat_times [ none ↦ false | some times ↦ leb times (job.fire_count + 1) ]

-- `Number(row.next_run_at) === scheduledAt`, where `Number(null)` is 0.
abbrev pub number_is : ℕ → Option ℕ → Bool
number_is at none = 0 == at
number_is at (some t) = t == at

-- `next_run_at = ?` of SQL, which a null never meets.
abbrev column_is : ℕ → Option ℕ → Bool
column_is at none = false
column_is at (some t) = t == at

-- `!row || row.enabled !== 1 || row.state !== "scheduled" || … !== scheduledAt`, the other way round.
abbrev pub due_at : ℕ → Job → Bool
due_at at job = job.enabled && is_scheduled job.state && number_is at job.next_run_at

abbrev overlap_fault : Option Run → Option Fault
overlap_fault none = none
overlap_fault (some active) = some (overlap_with active.id)

abbrev pub claim_status : Option Run → Status
claim_status none = claimed
claim_status (some active) = skipped_overlap

-- The row of the new run.
unfoldable pub scheduled_run : String → Job → ℕ → Option Run → ℕ → Run
scheduled_run run_id job scheduled_at active now =
    record (new_run run_id job by_schedule scheduled_at now) {
      status = claim_status active;
      error = overlap_fault active;
      completed_at = if is_some active then some now else none;
    }

-- What is left of the schedule: `finalNext`.
abbrev next_after : Job → Option ℕ → Option ℕ
next_after job next_run_at = if exhausted job then none else next_run_at

-- The update of the job's row.
unfoldable pub fired_job : ℕ → Option ℕ → Option Run → ℕ → Job → Job
fired_job scheduled_at next_run_at active now job = record job {
  fire_count = job.fire_count + 1;
  enabled = is_some (next_after job next_run_at);
  state = if is_some (next_after job next_run_at) then scheduled else completed;
  next_run_at = next_after job next_run_at;
  last_run_at = some scheduled_at;
  last_status = some (claim_status active);
  last_error = overlap_fault active;
  updated_at = now;
}

abbrev pub claim_result : Option Run → Run → Job → Claim
claim_result none run job = claimed_run run job
claim_result (some active) run job = skipped_run run job

unfoldable pub claim_due : String → ℕ → Option ℕ → ℕ → Job → Method Claim
unfolding scheduled_run fired_job update_jobs insert_run
claim_due run_id scheduled_at next_run_at now job t =
    let active = first (active_for job.id) t.runs in
    let run = scheduled_run run_id job scheduled_at active now in
    let fired = fired_job scheduled_at next_run_at active now in
    do
      t' ← insert_run run t
      ok (claim_result active run (fired job), update_jobs (has_id job.id) fired t')

unfoldable pub claim_scheduled_run : String → String → ℕ → Option ℕ → ℕ → Method Claim
unfolding claim_due get_job
claim_scheduled_run job_id run_id scheduled_at next_run_at now t = elim (get_job t job_id) [
  | none ↦ ok (not_due, t)
  | some job ↦
      if due_at scheduled_at job
      then claim_due run_id scheduled_at next_run_at now job t
      else ok (not_due, t)
]

abbrev pub handed_job : ℕ → ℕ → Job → Job
handed_job scheduled_at now job = record job {
  last_run_at = some scheduled_at;
  last_status = some claimed;
  last_error = none;
  updated_at = now;
}

unfoldable pub claim_manual_run : String → String → ℕ → ℕ → Method Run
unfolding insert_run update_jobs
claim_manual_run job_id run_id scheduled_at now t = do
  job ← or_throw job_missing (first (live_job job_id) t.jobs)
  ensure already_running (is_none (first (active_for job_id) t.runs))
  t' ← insert_run (new_run run_id job by_hand scheduled_at now) t
  ok (
    new_run run_id job by_hand scheduled_at now,
    update_jobs (has_id job_id) (handed_job scheduled_at now) t',
  )

unfoldable pub has_active_run : String → Tables → Bool
has_active_run job_id t = is_some (first (active_for job_id) t.runs)

abbrev pub defers_now : String → ℕ → Job → Bool
defers_now job_id scheduled_at job =
    has_id job_id job
    && job.enabled
    && is_scheduled job.state
    && column_is scheduled_at job.next_run_at
    && is_none job.pending_check

abbrev pub deferred_row : Option ℕ → ℕ → Job → Job
deferred_row next_run_at now job = record job { next_run_at = next_run_at; updated_at = now }

-- `deferCheckedOccurrence`: whether a row changed.
unfoldable pub defer_checked_occurrence : String → ℕ → Option ℕ → ℕ → Tables → Bool × Tables
unfolding update_jobs
defer_checked_occurrence job_id scheduled_at next_run_at now t = (
  is_some (first (defers_now job_id scheduled_at) t.jobs),
  update_jobs (defers_now job_id scheduled_at) (deferred_row next_run_at now) t,
)

abbrev pub awaiting : String → Job → Bool
awaiting job_id job = has_id job_id job && is_some job.pending_check && not (is_removed job.state)

unfoldable pub checked_job : PendingCheck → ℕ → Job → Job
checked_job pending now job = record job {
  pending_check = none;
  fire_count = job.fire_count + 1;
  state = if exhausted job then completed else job.state;
  enabled = if exhausted job then false else job.enabled;
  next_run_at = if exhausted job then none else job.next_run_at;
  last_run_at = some pending.at;
  last_status = some claimed;
  updated_at = now;
}

abbrev pub checked_run : String → Job → PendingCheck → ℕ → Run
checked_run run_id job pending now = record (new_run run_id job by_schedule pending.at now) {
  check = some pending.result;
}

-- `claimCheckedRun`: the run and the job, or `none` where nothing is claimed.
unfoldable pub claim_checked_run : String → String → ℕ → Method (Option (Run × Job))
unfolding checked_job insert_run update_jobs
claim_checked_run job_id run_id now t = elim (first (awaiting job_id) t.jobs) [
  | none ↦ ok (none, t)
  | some job ↦
      if is_some (first (active_for job_id) t.runs) then ok (none, t) else elim job.pending_check [
        | none ↦ ok (none, t)
        | some pending ↦ insert_run (checked_run run_id job pending now) t >>= λ t'. ok (
          some (checked_run run_id job pending now, checked_job pending now job),
          update_jobs (has_id job_id) (checked_job pending now) t',
        )
      ]
]

abbrev by_update : Job → Job → Bool
by_update a b = ltb a.updated_at b.updated_at || a.updated_at == b.updated_at && text_le a.id b.id

unfoldable pub list_pending_check_jobs : ℕ → Tables → List Job
list_pending_check_jobs limit t = take limit (
    order_by by_update
      (select (λ job. is_some job.pending_check && not (is_removed job.state)) t.jobs))
