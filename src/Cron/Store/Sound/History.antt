-- ===== src/Cron/Store/Sound/History.antt =====
-- The cron tables keep their invariant whatever calls src/cron-store.mjs gets, in whatever order.
use persistent_harness.Prelude.{
  ◌≡◌, String, Bool, List, [], ◌∷◌, ◌&&◌, false, is_some, arith, count,
}
use persistent_harness.Cron.Text.{Text}
use persistent_harness.Cron.Store.Schema.{Job, Tables, is_scheduled}
use persistent_harness.Cron.Store.History.{
  Call, creates, replaces, pauses, resumes, removes, claims_scheduled, claims_manual, defers,
  claims_checked, starts, finishes, reconciles, check_succeeds, check_fails, sets_pending, reports,
  records, prunes, step, steps, empty,
}
use persistent_harness.Cron.Store.Sound.{IsSound, is_over}
use persistent_harness.Cron.Store.Sound.JobCalls
use persistent_harness.Cron.Store.Sound.ClaimCalls
use persistent_harness.Cron.Store.Sound.RunCalls

-- What the scheduler's update hands to `replaceJob`: a row that is enabled exactly if scheduled, with
-- no next run if it is over. The other calls take any arguments.
abbrev IsProper : Call → Type 0
IsProper (replaces id params now) =
    (params.enabled ≡ is_scheduled params.state)
    × ((is_over params.state && is_some params.next_run_at) ≡ false)
IsProper (creates params now) = Unit {0}
IsProper _ = Unit {0}

abbrev AllProper : List Call → Type 0
AllProper [] = Unit {0}
AllProper (call ∷ calls) = IsProper call × AllProper calls

empty-IsSound : (sessions : List String) → IsSound (empty sessions)
unfolding count
empty-IsSound sessions = record {
  job_ids = λ id. omega arith;
  run_ids = λ id. omega arith;
  one_active = λ id. omega arith;
  one_occurrence = λ id at. omega arith;
  run_jobs = tt;
  rows = tt;
}

module _ (lower : String → String) (deep_equal : Job → Job → Bool) (units : String → Text) where
  -- Every call keeps the tables sound, whether it returns or throws.
  step-IsSound :
      (call : Call) (t : Tables)
      → IsProper call
      → IsSound t
      → IsSound (step lower deep_equal units call t)
  unfolding step
  step-IsSound (creates params now) t p s = JobCalls.create_job-IsSound lower params now t s
  step-IsSound (replaces id params now) t p s =
      JobCalls.replace_job-IsSound lower id params now t p.0 p.1 s
  step-IsSound (pauses id now) t p s = JobCalls.pause_job-IsSound id now t s
  step-IsSound (resumes id next expected now) t p s =
      JobCalls.resume_job-IsSound deep_equal id next now expected t s
  step-IsSound (removes id now) t p s = JobCalls.remove_job-IsSound id now t s
  step-IsSound (claims_scheduled job run at next now) t p s =
      ClaimCalls.claim_scheduled_run-IsSound job run at next now t s
  step-IsSound (claims_manual job run at now) t p s =
      ClaimCalls.claim_manual_run-IsSound job run at now t s
  step-IsSound (defers job at next now) t p s =
      ClaimCalls.defer_checked_occurrence-IsSound job at next now t s
  step-IsSound (claims_checked job run now) t p s =
      ClaimCalls.claim_checked_run-IsSound job run now t s
  step-IsSound (starts run mode session reason input now) t p s =
      RunCalls.mark_run_running-IsSound run mode session reason input now t s
  step-IsSound (finishes run status output error now) t p s =
      RunCalls.finish_run-IsSound run status output error now t s
  step-IsSound (reconciles now) t p s = RunCalls.reconcile-IsSound now t s
  step-IsSound (check_succeeds job now) t p s = JobCalls.record_check_success-IsSound job now t s
  step-IsSound (check_fails job error threshold now) t p s =
      JobCalls.record_check_failure-IsSound job error threshold now t s
  step-IsSound (sets_pending job pending now) t p s =
      JobCalls.set_pending_check-IsSound job pending now t s
  step-IsSound (reports run session disposition body now) t p s =
      RunCalls.report_notification-IsSound units run session disposition body now t s
  step-IsSound (records run) t p s = RunCalls.notification_recorded-IsSound run t s
  step-IsSound (prunes keep) t p s = RunCalls.prune_runs-IsSound keep t s

  steps-IsSound :
      (calls : List Call) (t : Tables)
      → AllProper calls
      → IsSound t
      → IsSound (steps lower deep_equal units calls t)
  unfolding steps
  steps-IsSound [] t p s = s
  steps-IsSound (call ∷ calls) t p s =
      steps-IsSound calls (step lower deep_equal units call t) p.1 (step-IsSound call t p.0 s)

  -- After any history of calls that starts on empty tables, ids are unique, no job has two active
  -- runs, no occurrence of a schedule has two runs, every run has its job, and each job is enabled
  -- exactly if it is scheduled, with no next run once it is completed or removed.
  pub steps-empty-IsSound :
      (calls : List Call) (sessions : List String)
      → AllProper calls
      → IsSound (steps lower deep_equal units calls (empty sessions))
  steps-empty-IsSound calls sessions p =
      steps-IsSound calls (empty sessions) p (empty-IsSound sessions)
