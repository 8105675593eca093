-- ===== src/Cron/Store/Cases.antt =====
-- The tables that two methods of src/cron-store.mjs with many branches can leave behind.
use persistent_harness.Prelude.{
  ℕ, String, not, ◌&&◌, Bool-cases, Option-cases, inl, inr, Option, none, some, leb, ok,
}
use persistent_harness.Cron.Text.{Text}
use persistent_harness.Cron.Store.Schema.{
  Disposition, Run, Tables, bad_disposition, wrong_actor, needs_deliver, different_disposition,
  not_evaluating, has_id, ensure, or_throw, ◌>>◌,
}
use persistent_harness.Cron.Store.Jobs.{get_job, update_jobs}
use persistent_harness.Cron.Store.Runs.{get_run, update_runs}
use persistent_harness.Cron.Store.Checks.{failing, alerted_row, record_check_failure}
use persistent_harness.Cron.Store.Notices.{
  valid_report, accepts, allowed_for, same_disposition, same_text, is_running, from_session,
  unreported, reported_run, report_notification,
}
use persistent_harness.Cron.Store.History.{after, after-bind}

pub record_check_failure-cases {ℓ} :
    (P : Tables → Type ℓ) (job_id error : String) (threshold now : ℕ) (t : Tables)
    → P (update_jobs (has_id job_id) (failing error now) t)
    → P (
        update_jobs (has_id job_id) alerted_row (update_jobs (has_id job_id) (failing error now) t))
    → P (record_check_failure job_id error threshold now t).1
unfolding record_check_failure
record_check_failure-cases P job_id error threshold now t counted alerted =
    elim (Option-cases (get_job (update_jobs (has_id job_id) (failing error now) t) job_id)) [
      | inl e ↦ rw (e, record_check_failure) counted
      | inr (row, e) ↦
          rw (e, record_check_failure)
            (elim (Bool-cases (leb threshold row.check_failures && not row.check_alerted)) [
              | inl wakes ↦ rw wakes alerted
              | inr quiet ↦ rw quiet counted
            ])
    ]

pub report_notification-cases {ℓ} :
    (P : Tables → Type ℓ) (units : String → Text) (run_id session_id : String)
    (disposition : Disposition) (body : Option String) (now : ℕ) (t : Tables)
    → P t
    → P (update_runs (unreported run_id) (reported_run disposition body now) t)
    → P (after (report_notification units run_id session_id disposition body now t) t)
unfolding report_notification
report_notification-cases P units run_id session_id disposition body now t s changed =
    after-bind P t (ensure bad_disposition (valid_report units disposition body)) _ s λ _ _.
      after-bind P t (or_throw wrong_actor (get_run t run_id)) _ s λ run _.
        after-bind P t
          (ensure wrong_actor
            (from_session session_id run.session_id && accepts run.notification_intent))
          _ s
          λ _ _.
            after-bind P t (ensure needs_deliver (allowed_for run.notification_intent disposition))
              _ s λ _ _. ends run.disposition run
  where
    ends :
        (earlier : Option Disposition) (run : Run)
        → P (
            after
              (elim earlier [
                | some d ↦
                    ensure different_disposition
                      (same_disposition d disposition && same_text run.notification_body body)
                    >> ok (some run, t)
                | none ↦
                    ensure not_evaluating (is_running run.status)
                    >> ok (
                      get_run
                          (update_runs (unreported run_id) (reported_run disposition body now) t)
                          run_id,
                      update_runs (unreported run_id) (reported_run disposition body now) t,
                    )
              ])
              t)
    ends none run =
        after-bind P t (ensure not_evaluating (is_running run.status)) _ s λ _ _. changed
    ends (some d) run =
        after-bind P t
          (ensure different_disposition
            (same_disposition d disposition && same_text run.notification_body body))
          _ s λ _ _. s
