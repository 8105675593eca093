-- ===== src/Cron/Store/Sound/RunCalls.antt =====
-- The methods of src/cron-store.mjs on runs keep the invariant of the tables.
use persistent_harness.Prelude.{
  ℕ, ◌≡◌, refl, String, Bool, true, Bool-cases, Option-cases, inl, inr, Option, none, some, arith,
  first, All-select, count-select-le,
}
use persistent_harness.Cron.Text.{Text}
use persistent_harness.Cron.Store.Schema.{
  ExecutionMode, Status, running, Disposition, Fault, Job, Run, Tables, is_active, references,
  has_id, run_has_id, active_for, occurrence_of,
}
use persistent_harness.Cron.Store.Jobs.{update_jobs}
use persistent_harness.Cron.Store.Runs.{
  claimed_with, active_with, started_run, may_finish, finished_run, active_run, interrupted_run,
  mark_run_running, finish_run, reconcile_interrupted_runs, not_prunable, prune_runs,
}
use persistent_harness.Cron.Store.Notices.{
  report_notification, notification_recorded, unreported, reported_run,
}
use persistent_harness.Cron.Store.History.{after}
use persistent_harness.Cron.Store.Cases.{report_notification-cases}
use persistent_harness.Cron.Store.Sound.{IsSound}
use persistent_harness.Cron.Store.Sound.Rules.{KeepsRun, update_runs-IsSound, update_jobs-IsSound}

-- An update that leaves the id, the state, `enabled` and the next run of a job alone.
pub record LeavesJob (f : Job → Job) : Type 0 where
  pub id : (job : Job) → (f job).id ≡ job.id
  pub enabled : (job : Job) → (f job).enabled ≡ job.enabled
  pub state : (job : Job) → (f job).state ≡ job.state
  pub next_run_at : (job : Job) → (f job).next_run_at ≡ job.next_run_at

pub LeavesJob-IsSound :
    (p : Job → Bool) (f : Job → Job) (t : Tables)
    → LeavesJob f
    → IsSound t
    → IsSound (update_jobs p f t)
LeavesJob-IsSound p f t l s =
    update_jobs-IsSound p f t
      (record { id = l.id; row = λ job h c. rw (l.enabled job, l.state job, l.next_run_at job) c })
      s

claimed_active :
    (run_id : String) (run : Run) → claimed_with run_id run ≡ true → is_active run.status ≡ true
claimed_active run_id run h = ground arith

pub mark_run_running-IsSound :
    (run_id : String) (mode : ExecutionMode) (session_id fallback_reason input_id : Option String)
    (now : ℕ) (t : Tables)
    → IsSound t
    → IsSound (after (mark_run_running run_id mode session_id fallback_reason input_id now t) t)
unfolding mark_run_running
mark_run_running-IsSound run_id mode session_id fallback_reason input_id now t s =
    elim (Option-cases (first (claimed_with run_id) t.runs)) [
      | inl e ↦ rw (e, mark_run_running) s
      | inr (run, e) ↦ elim (Bool-cases (references t.sessions session_id)) [
        | inl known ↦
            rw (e, mark_run_running)
              (rw known (
                LeavesJob-IsSound (has_id run.job_id) _ _ leaves
                  (update_runs-IsSound (claimed_with run_id) _ t keeps s)))
        | inr missing ↦ rw (e, mark_run_running) (rw missing s)
      ]
    ]
  where
    leaves :
        LeavesJob
          (λ job. record job { last_status = some running; last_error = none; updated_at = now })
    leaves = record {
      id = λ job. refl;
      enabled = λ job. refl;
      state = λ job. refl;
      next_run_at = λ job. refl;
    }

    keeps :
        KeepsRun (claimed_with run_id) (started_run mode session_id fallback_reason input_id now)
    keeps = record {
      id = λ run. refl;
      job_id = λ run. refl;
      source = λ run. refl;
      scheduled_at = λ run. refl;
      active = λ run h e. claimed_active run_id run h;
    }

pub finish_run-IsSound :
    (run_id : String) (status : Status) (output : Option String) (error : Option Fault) (now : ℕ)
    (t : Tables)
    → IsSound t
    → IsSound (after (finish_run run_id status output error now t) t)
unfolding finish_run
finish_run-IsSound run_id status output error now t s = elim (Bool-cases (may_finish status)) [
  | inr refused ↦ rw (refused, finish_run) s
  | inl final ↦ elim (Option-cases (first (active_with run_id) t.runs)) [
    | inl e ↦ rw (final, finish_run) (rw e s)
    | inr (run, e) ↦
        rw (final, finish_run)
          (rw e (
            LeavesJob-IsSound (has_id run.job_id) _ _ leaves
              (update_runs-IsSound (active_with run_id) _ t (keeps final) s)))
  ]
]
  where
    leaves :
        LeavesJob
          (λ job. record job { last_status = some status; last_error = error; updated_at = now })
    leaves = record {
      id = λ job. refl;
      enabled = λ job. refl;
      state = λ job. refl;
      next_run_at = λ job. refl;
    }

    keeps :
        may_finish status ≡ true
        → KeepsRun (active_with run_id) (finished_run status output error now)
    keeps final = record {
      id = λ run. refl;
      job_id = λ run. refl;
      source = λ run. refl;
      scheduled_at = λ run. refl;
      active = λ run h e. ground arith;
    }

pub reconcile-IsSound :
    (now : ℕ) (t : Tables) → IsSound t → IsSound (reconcile_interrupted_runs now t).1
unfolding reconcile_interrupted_runs
reconcile-IsSound now t s =
    LeavesJob-IsSound _ _ _
      (record {
        id = λ job. refl;
        enabled = λ job. refl;
        state = λ job. refl;
        next_run_at = λ job. refl;
      })
      (update_runs-IsSound active_run (interrupted_run now) t
        (record {
          id = λ run. refl;
          job_id = λ run. refl;
          source = λ run. refl;
          scheduled_at = λ run. refl;
          active = λ run h e. cc;
        })
        s)

pub notification_recorded-IsSound :
    (run_id : String) (t : Tables) → IsSound t → IsSound (notification_recorded run_id t)
unfolding notification_recorded
notification_recorded-IsSound run_id t s =
    update_runs-IsSound _ _ t
      (record {
        id = λ run. refl;
        job_id = λ run. refl;
        source = λ run. refl;
        scheduled_at = λ run. refl;
        active = λ run h e. e;
      })
      s

pub prune_runs-IsSound : (keep : ℕ) (t : Tables) → IsSound t → IsSound (prune_runs keep t).1
unfolding prune_runs
prune_runs-IsSound keep t s = record {
  job_ids = s.job_ids;
  run_ids = λ id.
      omega (arith, count-select-le (run_has_id id) (not_prunable keep t) t.runs, s.run_ids id);
  one_active = λ id.
      omega (arith, count-select-le (active_for id) (not_prunable keep t) t.runs, s.one_active id);
  one_occurrence = λ id at. omega (
    arith,
    count-select-le (occurrence_of id at) (not_prunable keep t) t.runs,
    s.one_occurrence id at,
  );
  run_jobs = All-select _ (not_prunable keep t) t.runs s.run_jobs;
  rows = s.rows;
}

pub report_notification-IsSound :
    (units : String → Text) (run_id session_id : String) (disposition : Disposition)
    (body : Option String) (now : ℕ) (t : Tables)
    → IsSound t
    → IsSound (after (report_notification units run_id session_id disposition body now t) t)
report_notification-IsSound units run_id session_id disposition body now t s =
    report_notification-cases IsSound units run_id session_id disposition body now t s (
      update_runs-IsSound (unreported run_id) (reported_run disposition body now) t
        (record {
          id = λ run. refl;
          job_id = λ run. refl;
          source = λ run. refl;
          scheduled_at = λ run. refl;
          active = λ run h e. e;
        })
        s)
