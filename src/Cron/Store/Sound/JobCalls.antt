-- ===== src/Cron/Store/Sound/JobCalls.antt =====
-- The methods of src/cron-store.mjs on jobs and their checks keep the invariant of the tables.
use persistent_harness.Prelude.{
  ℕ, ◌≡◌, refl, String, Bool, true, false, ◌&&◌, ◌||◌, Option, arith, is_some, is_none, first, ok,
}
use persistent_harness.Cron.Store.Schema.{
  Job, Tables, CronError, PendingCheck, job_missing, job_changed, not_scheduled, not_paused,
  is_scheduled, is_removed, has_id, live_name, references, require, ensure, or_throw,
}
use persistent_harness.Cron.Store.Jobs.{
  NewJob, JobChange, get_job, update_jobs, change_job, new_row, changed_row, live_job,
  scheduled_job, paused_job, allowed_repeat, name_is_free, create_job, replace_job, pause_job,
  resume_job, remove_job, expected, paused_row, resumed_row, removed_row,
}
use persistent_harness.Cron.Store.Checks.{
  succeeded, failing, alerted_row, may_wait, record_check_success, record_check_failure,
  set_pending_check,
}
use persistent_harness.Cron.Store.History.{after, after-bind}
use persistent_harness.Cron.Store.Cases.{record_check_failure-cases}
use persistent_harness.Cron.Store.Sound.{IsSound, IsConsistent, is_over}
use persistent_harness.Cron.Store.Sound.Rules.{KeepsJob, update_jobs-IsSound, insert_job-IsSound}
use persistent_harness.Cron.Store.Sound.RunCalls.{LeavesJob-IsSound}

change_job-IsSound :
    (p : Job → Bool) (f : Job → Job) (e : CronError) (id : String) (t : Tables)
    → KeepsJob p f
    → IsSound t
    → IsSound (after (change_job p f e id t) t)
unfolding change_job
change_job-IsSound p f e id t k s = after-bind IsSound t (or_throw e (first p t.jobs)) _ s λ _ _.
    after-bind IsSound t (or_throw e (get_job (update_jobs p f t) id)) _ s
      λ _ _. update_jobs-IsSound p f t k s

allowed : {b : Bool} {u : Unit {0}} → require b ≡ ok u → b ≡ true
allowed {b = true} h = refl
allowed {b = false} h = cc

new_row-IsConsistent : (params : NewJob) (now : ℕ) → IsConsistent (new_row params now)
unfolding new_row
new_row-IsConsistent params now = ground arith

pub create_job-IsSound :
    (lower : String → String) (params : NewJob) (now : ℕ) (t : Tables)
    → IsSound t
    → IsSound (after (create_job lower params now t) t)
unfolding create_job new_row get_job
create_job-IsSound lower params now t s =
    after-bind IsSound t (require (is_none (get_job t params.id))) _ s λ _ free.
      after-bind IsSound t (require (is_none (first (live_name lower params.name) t.jobs))) _ s
        λ _ _.
          after-bind IsSound t (require (references t.sessions params.origin_session_id)) _ s λ _ _.
            after-bind IsSound t (require (allowed_repeat params.repeat)) _ s λ _ _.
              insert_job-IsSound (new_row params now) t (allowed free)
                (new_row-IsConsistent params now) s

pub replace_job-IsSound :
    (lower : String → String) (id : String) (params : JobChange) (now : ℕ) (t : Tables)
    → (params.enabled ≡ is_scheduled params.state)
    → ((is_over params.state && is_some params.next_run_at) ≡ false)
    → IsSound t
    → IsSound (after (replace_job lower id params now t) t)
unfolding replace_job
replace_job-IsSound lower id params now t en nx s =
    after-bind IsSound t (or_throw job_missing (first (live_job id) t.jobs)) _ s λ _ _.
      after-bind IsSound t
        (require (is_removed params.state || name_is_free lower id params.name t.jobs)) _ s
        λ _ _. after-bind IsSound t (require (allowed_repeat params.repeat)) _ s λ _ _.
          change_job-IsSound (live_job id) (changed_row params now) job_missing id t
            (record { id = λ job. refl; row = λ job h c. (en, nx) }) s

pub pause_job-IsSound :
    (id : String) (now : ℕ) (t : Tables) → IsSound t → IsSound (after (pause_job id now t) t)
unfolding pause_job
pause_job-IsSound id now t s =
    change_job-IsSound (scheduled_job id) (paused_row now) not_scheduled id t
      (record { id = λ job. refl; row = λ job h c. (refl, refl) }) s

pub resume_job-IsSound :
    (deep_equal : Job → Job → Bool) (id : String) (next_run_at now : ℕ) (expected_job : Option Job)
    (t : Tables)
    → IsSound t
    → IsSound (after (resume_job deep_equal id next_run_at now expected_job t) t)
unfolding resume_job
resume_job-IsSound deep_equal id next_run_at now expected_job t s =
    after-bind IsSound t (ensure job_changed (expected deep_equal expected_job (get_job t id))) _ s
      λ _ _.
        change_job-IsSound (paused_job id) (resumed_row next_run_at now) not_paused id t
          (record { id = λ job. refl; row = λ job h c. (refl, refl) }) s

pub remove_job-IsSound :
    (id : String) (now : ℕ) (t : Tables) → IsSound t → IsSound (after (remove_job id now t) t)
unfolding remove_job
remove_job-IsSound id now t s =
    change_job-IsSound (live_job id) (removed_row now) job_missing id t
      (record { id = λ job. refl; row = λ job h c. (refl, refl) }) s

pub record_check_success-IsSound :
    (job_id : String) (now : ℕ) (t : Tables)
    → IsSound t
    → IsSound (record_check_success job_id now t)
unfolding record_check_success
record_check_success-IsSound job_id now t s =
    LeavesJob-IsSound (has_id job_id) (succeeded now) t
      (record {
        id = λ job. refl;
        enabled = λ job. refl;
        state = λ job. refl;
        next_run_at = λ job. refl;
      })
      s

pub record_check_failure-IsSound :
    (job_id error : String) (threshold now : ℕ) (t : Tables)
    → IsSound t
    → IsSound (record_check_failure job_id error threshold now t).1
record_check_failure-IsSound job_id error threshold now t s =
    record_check_failure-cases IsSound job_id error threshold now t counted-IsSound (
      LeavesJob-IsSound (has_id job_id) alerted_row
        (update_jobs (has_id job_id) (failing error now) t)
        (record {
          id = λ job. refl;
          enabled = λ job. refl;
          state = λ job. refl;
          next_run_at = λ job. refl;
        })
        counted-IsSound)
  where
    counted-IsSound : IsSound (update_jobs (has_id job_id) (failing error now) t)
    counted-IsSound =
        LeavesJob-IsSound (has_id job_id) (failing error now) t
          (record {
            id = λ job. refl;
            enabled = λ job. refl;
            state = λ job. refl;
            next_run_at = λ job. refl;
          })
          s

pub set_pending_check-IsSound :
    (job_id : String) (pending : PendingCheck) (now : ℕ) (t : Tables)
    → IsSound t
    → IsSound (set_pending_check job_id pending now t).1
unfolding set_pending_check
set_pending_check-IsSound job_id pending now t s =
    LeavesJob-IsSound (may_wait job_id) _ t
      (record {
        id = λ job. refl;
        enabled = λ job. refl;
        state = λ job. refl;
        next_run_at = λ job. refl;
      })
      s
