-- ===== src/Cron/Store/History.antt =====
-- The methods of `CronStore` (src/cron-store.mjs) that change the tables, as calls, and a sequence of
-- calls as its clients make them one after the other.
use persistent_harness.Prelude.{
  ℕ, ◌≡◌, refl, String, Bool, Option, List, [], ◌∷◌, Outcome, ok, err, ◌>>=◌,
}
use persistent_harness.Cron.Text.{Text}
use persistent_harness.Cron.Store.Schema.{
  ExecutionMode, Status, Disposition, PendingCheck, Fault, Job, Tables, CronError,
}
use persistent_harness.Cron.Store.Jobs.{
  NewJob, JobChange, create_job, replace_job, pause_job, resume_job, remove_job,
}
use persistent_harness.Cron.Store.Claims.{
  claim_scheduled_run, claim_manual_run, defer_checked_occurrence, claim_checked_run,
}
use persistent_harness.Cron.Store.Runs.{
  mark_run_running, finish_run, reconcile_interrupted_runs, prune_runs,
}
use persistent_harness.Cron.Store.Checks.{
  record_check_success, record_check_failure, set_pending_check,
}
use persistent_harness.Cron.Store.Notices.{report_notification, notification_recorded}

-- The last number of a call is the time of the call.
pub data Call : Type 0 where
  creates : NewJob → ℕ → Call
  replaces : String → JobChange → ℕ → Call
  pauses : String → ℕ → Call
  resumes : String → ℕ → Option Job → ℕ → Call
  removes : String → ℕ → Call
  claims_scheduled : String → String → ℕ → Option ℕ → ℕ → Call
  claims_manual : String → String → ℕ → ℕ → Call
  defers : String → ℕ → Option ℕ → ℕ → Call
  claims_checked : String → String → ℕ → Call
  starts : String → ExecutionMode → Option String → Option String → Option String → ℕ → Call
  finishes : String → Status → Option String → Option Fault → ℕ → Call
  reconciles : ℕ → Call
  check_succeeds : String → ℕ → Call
  check_fails : String → String → ℕ → ℕ → Call
  sets_pending : String → PendingCheck → ℕ → Call
  reports : String → String → Disposition → Option String → ℕ → Call
  records : String → Call
  prunes : ℕ → Call

-- A call that throws leaves the tables as they were.
abbrev pub after : {A : Type 0} → Outcome CronError (A × Tables) → Tables → Tables
after (ok (a, t')) t = t'
after (err e) t = t

-- A chain that throws changes nothing; one that goes on ends as its rest does.
pub after-bind {ℓ} :
    {A B : Type 0} (P : Tables → Type ℓ) (t : Tables) (call : Outcome CronError A)
    (next : A → Outcome CronError (B × Tables))
    → P t
    → ((a : A) → call ≡ ok a → P (after (next a) t))
    → P (after (call >>= next) t)
after-bind P t (ok a) next h k = k a refl
after-bind P t (err e) next h k = h

module _ (lower : String → String) (deep_equal : Job → Job → Bool) (units : String → Text) where
  unfoldable pub step : Call → Tables → Tables
  step (creates params now) t = after (create_job lower params now t) t
  step (replaces id params now) t = after (replace_job lower id params now t) t
  step (pauses id now) t = after (pause_job id now t) t
  step (resumes id next_run_at expected_job now) t =
      after (resume_job deep_equal id next_run_at now expected_job t) t
  step (removes id now) t = after (remove_job id now t) t
  step (claims_scheduled job_id run_id scheduled_at next_run_at now) t =
      after (claim_scheduled_run job_id run_id scheduled_at next_run_at now t) t
  step (claims_manual job_id run_id scheduled_at now) t =
      after (claim_manual_run job_id run_id scheduled_at now t) t
  step (defers job_id scheduled_at next_run_at now) t =
      (defer_checked_occurrence job_id scheduled_at next_run_at now t).1
  step (claims_checked job_id run_id now) t = after (claim_checked_run job_id run_id now t) t
  step (starts run_id mode session_id fallback_reason input_id now) t =
      after (mark_run_running run_id mode session_id fallback_reason input_id now t) t
  step (finishes run_id status output error now) t =
      after (finish_run run_id status output error now t) t
  step (reconciles now) t = (reconcile_interrupted_runs now t).1
  step (check_succeeds job_id now) t = record_check_success job_id now t
  step (check_fails job_id error threshold now) t =
      (record_check_failure job_id error threshold now t).1
  step (sets_pending job_id pending now) t = (set_pending_check job_id pending now t).1
  step (reports run_id session_id disposition body now) t =
      after (report_notification units run_id session_id disposition body now t) t
  step (records run_id) t = notification_recorded run_id t
  step (prunes keep) t = (prune_runs keep t).1

  unfoldable pub steps : List Call → Tables → Tables
  steps [] t = t
  steps (call ∷ calls) t = steps calls (step call t)

abbrev pub empty : List String → Tables
empty sessions = record { jobs = []; runs = []; sessions = sessions }
