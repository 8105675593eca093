-- ===== src/Cron/Store/Life/EveryCall.antt =====
-- No call of src/cron-store.mjs moves a run backwards.
use persistent_harness.Prelude.{
  ℕ, ◌≡◌, refl, String, Bool, true, ◌||◌, Bool-cases, Option-cases, inl, inr, Option, none, some,
  is_some, is_none, first, ok, ◌>>=◌,
}
use persistent_harness.Cron.Text.{Text}
use persistent_harness.Cron.Store.Schema.{
  Disposition, PendingCheck, Job, Run, Tables, CronError, job_missing, job_changed, already_running,
  not_scheduled, not_paused, is_removed, has_id, run_has_id, live_name, active_for, by_hand,
  references, insert_run, require, ensure, or_throw,
}
use persistent_harness.Cron.Store.Jobs.{
  NewJob, JobChange, get_job, update_jobs, change_job, changed_row, live_job, scheduled_job,
  paused_job, paused_row, resumed_row, removed_row, allowed_repeat, name_is_free, expected,
  create_job, replace_job, pause_job, resume_job, remove_job,
}
use persistent_harness.Cron.Store.Claims.{
  new_run, due_at, scheduled_run, fired_job, claim_due, claim_scheduled_run, handed_job,
  claim_manual_run, defer_checked_occurrence, awaiting, checked_job, checked_run, claim_checked_run,
}
use persistent_harness.Cron.Store.Runs.{get_run}
use persistent_harness.Cron.Store.Checks.{
  record_check_success, record_check_failure, set_pending_check,
}
use persistent_harness.Cron.Store.Notices.{
  unreported, reported_run, report_notification, notification_recorded,
}
use persistent_harness.Cron.Store.History.{
  Call, creates, replaces, pauses, resumes, removes, claims_scheduled, claims_manual, defers,
  claims_checked, starts, finishes, reconciles, check_succeeds, check_fails, sets_pending, reports,
  records, prunes, after, after-bind, step,
}
use persistent_harness.Cron.Store.Cases.{record_check_failure-cases, report_notification-cases}
use persistent_harness.Cron.Store.Sound.{IsSound}
use persistent_harness.Cron.Store.Life.Forward.{
  Moves, Moves-refl, may_become_refl, insert_run-Moves, update_runs-Moves, update_jobs-Moves,
  prune_runs-Moves, mark_run_running-Moves, finish_run-Moves, reconcile-Moves,
}

module _ (run : Run) (id : String) (t : Tables) (found : get_run t id ≡ some run) where
  stays : Moves run id t
  stays = Moves-refl run id t found

  change_job-Moves :
      (p : Job → Bool) (f : Job → Job) (e : CronError) (job_id : String)
      → Moves run id (after (change_job p f e job_id t) t)
  unfolding change_job
  change_job-Moves p f e job_id =
      after-bind (Moves run id) t (or_throw e (first p t.jobs)) _ stays λ _ _.
        after-bind (Moves run id) t (or_throw e (get_job (update_jobs p f t) job_id)) _ stays
          λ _ _. update_jobs-Moves run id t found p f

  create_job-Moves :
      (lower : String → String) (params : NewJob) (now : ℕ)
      → Moves run id (after (create_job lower params now t) t)
  unfolding create_job get_run
  create_job-Moves lower params now =
      after-bind (Moves run id) t (require (is_none (get_job t params.id))) _ stays λ _ _.
        after-bind (Moves run id) t (require (is_none (first (live_name lower params.name) t.jobs)))
          _ stays
          λ _ _.
            after-bind (Moves run id) t (require (references t.sessions params.origin_session_id)) _
              stays
              λ _ _.
                after-bind (Moves run id) t (require (allowed_repeat params.repeat)) _ stays
                  λ _ _. stays

  replace_job-Moves :
      (lower : String → String) (job_id : String) (params : JobChange) (now : ℕ)
      → Moves run id (after (replace_job lower job_id params now t) t)
  unfolding replace_job
  replace_job-Moves lower job_id params now =
      after-bind (Moves run id) t (or_throw job_missing (first (live_job job_id) t.jobs)) _ stays
        λ _ _.
          after-bind (Moves run id) t
            (require (is_removed params.state || name_is_free lower job_id params.name t.jobs)) _
            stays
            λ _ _.
              after-bind (Moves run id) t (require (allowed_repeat params.repeat)) _ stays λ _ _.
                change_job-Moves (live_job job_id) (changed_row params now) job_missing job_id

  resume_job-Moves :
      (deep_equal : Job → Job → Bool) (job_id : String) (next_run_at now : ℕ)
      (expected_job : Option Job)
      → Moves run id (after (resume_job deep_equal job_id next_run_at now expected_job t) t)
  unfolding resume_job
  resume_job-Moves deep_equal job_id next_run_at now expected_job =
      after-bind (Moves run id) t
        (ensure job_changed (expected deep_equal expected_job (get_job t job_id))) _ stays
        λ _ _. change_job-Moves (paused_job job_id) (resumed_row next_run_at now) not_paused job_id

  -- The row of the job is written after the new run is.
  inserted-Moves :
      (new : Run) (t' : Tables) (p : Job → Bool) (f : Job → Job)
      → insert_run new t ≡ ok t'
      → Moves run id (update_jobs p f t')
  inserted-Moves new t' p f h =
      update_jobs-Moves run id t' (insert_run-Moves run id t found new t' h) p f

  claim_scheduled_run-Moves :
      (job_id run_id : String) (scheduled_at : ℕ) (next_run_at : Option ℕ) (now : ℕ)
      → Moves run id (after (claim_scheduled_run job_id run_id scheduled_at next_run_at now t) t)
  unfolding claim_scheduled_run claim_due
  claim_scheduled_run-Moves job_id run_id scheduled_at next_run_at now =
      elim (Option-cases (get_job t job_id)) [
        | inl e ↦ rw (e, claim_scheduled_run) stays
        | inr (job, e) ↦ elim (Bool-cases (due_at scheduled_at job)) [
          | inr early ↦ rw (e, claim_scheduled_run) (rw early stays)
          | inl due ↦
              rw (e, claim_scheduled_run)
                (rw due (
                  let active = first (active_for job.id) t.runs in
                  let new = scheduled_run run_id job scheduled_at active now in
                  after-bind (Moves run id) t (insert_run new t) _ stays λ t' h.
                    inserted-Moves new t' (has_id job.id)
                      (fired_job scheduled_at next_run_at active now) h))
        ]
      ]

  claim_manual_run-Moves :
      (job_id run_id : String) (scheduled_at now : ℕ)
      → Moves run id (after (claim_manual_run job_id run_id scheduled_at now t) t)
  unfolding claim_manual_run
  claim_manual_run-Moves job_id run_id scheduled_at now =
      after-bind (Moves run id) t (or_throw job_missing (first (live_job job_id) t.jobs)) _ stays
        λ job _.
          after-bind (Moves run id) t
            (ensure already_running (is_none (first (active_for job_id) t.runs))) _ stays
            λ _ _.
              after-bind (Moves run id) t
                (insert_run (new_run run_id job by_hand scheduled_at now) t) _ stays
                λ t' h.
                  inserted-Moves (new_run run_id job by_hand scheduled_at now) t' (has_id job_id)
                    (handed_job scheduled_at now) h

  taken-Moves :
      (job_id run_id : String) (now : ℕ) (job : Job) (pending : Option PendingCheck)
      → Moves run id (
          after {A = Option (Run × Job)}
            (elim pending [
              | none ↦ ok (none, t)
              | some p ↦ insert_run (checked_run run_id job p now) t >>= λ t'. ok (
                some (checked_run run_id job p now, checked_job p now job),
                update_jobs (has_id job_id) (checked_job p now) t',
              )
            ])
            t)
  taken-Moves job_id run_id now job none = stays
  taken-Moves job_id run_id now job (some p) =
      after-bind (Moves run id) t (insert_run (checked_run run_id job p now) t) _ stays λ t' h.
        inserted-Moves (checked_run run_id job p now) t' (has_id job_id) (checked_job p now) h

  claim_checked_run-Moves :
      (job_id run_id : String) (now : ℕ)
      → Moves run id (after (claim_checked_run job_id run_id now t) t)
  unfolding claim_checked_run
  claim_checked_run-Moves job_id run_id now = elim (Option-cases (first (awaiting job_id) t.jobs)) [
    | inl e ↦ rw (e, claim_checked_run) stays
    | inr (job, e) ↦ elim (Bool-cases (is_some (first (active_for job_id) t.runs))) [
      | inl busy ↦ rw (e, claim_checked_run) (rw busy stays)
      | inr idle ↦
          rw (e, claim_checked_run) (rw idle (taken-Moves job_id run_id now job job.pending_check))
    ]
  ]

  record_check_failure-Moves :
      (job_id error : String) (threshold now : ℕ)
      → Moves run id (record_check_failure job_id error threshold now t).1
  unfolding get_run update_jobs
  record_check_failure-Moves job_id error threshold now =
      record_check_failure-cases (Moves run id) job_id error threshold now t stays stays

  report_notification-Moves :
      (units : String → Text) (run_id session_id : String) (disposition : Disposition)
      (body : Option String) (now : ℕ)
      → Moves run id (after (report_notification units run_id session_id disposition body now t) t)
  report_notification-Moves units run_id session_id disposition body now =
      report_notification-cases (Moves run id) units run_id session_id disposition body now t stays
        (update_runs-Moves run id t found (unreported run_id) (reported_run disposition body now)
          (λ r. refl) (λ r _. may_become_refl r.status))

module _ (lower : String → String) (deep_equal : Job → Job → Bool) (units : String → Text) where
  -- On sound tables, whatever call the store gets, a run that it holds moves forward at most: from
  -- claimed to running or over, from running to over; once it is over its status never changes, and
  -- only then may the call remove it.
  pub step-Moves :
      (call : Call) (run : Run) (id : String) (t : Tables)
      → IsSound t
      → get_run t id ≡ some run
      → Moves run id (step lower deep_equal units call t)
  unfolding step get_run update_jobs pause_job remove_job defer_checked_occurrence
      record_check_success set_pending_check notification_recorded
  step-Moves (creates params now) run id t s f = create_job-Moves run id t f lower params now
  step-Moves (replaces job params now) run id t s f =
      replace_job-Moves run id t f lower job params now
  step-Moves (pauses job now) run id t s f =
      change_job-Moves run id t f (scheduled_job job) (paused_row now) not_scheduled job
  step-Moves (resumes job next expected now) run id t s f =
      resume_job-Moves run id t f deep_equal job next now expected
  step-Moves (removes job now) run id t s f =
      change_job-Moves run id t f (live_job job) (removed_row now) job_missing job
  step-Moves (claims_scheduled job new at next now) run id t s f =
      claim_scheduled_run-Moves run id t f job new at next now
  step-Moves (claims_manual job new at now) run id t s f =
      claim_manual_run-Moves run id t f job new at now
  step-Moves (defers job at next now) run id t s f = stays run id t f
  step-Moves (claims_checked job new now) run id t s f =
      claim_checked_run-Moves run id t f job new now
  step-Moves (starts r mode session reason input now) run id t s f =
      mark_run_running-Moves run id t f r mode session reason input now
  step-Moves (finishes r status output error now) run id t s f =
      finish_run-Moves run id t f r status output error now
  step-Moves (reconciles now) run id t s f = reconcile-Moves run id t f now
  step-Moves (check_succeeds job now) run id t s f = stays run id t f
  step-Moves (check_fails job error threshold now) run id t s f =
      record_check_failure-Moves run id t f job error threshold now
  step-Moves (sets_pending job pending now) run id t s f = stays run id t f
  step-Moves (reports r session disposition body now) run id t s f =
      report_notification-Moves run id t f units r session disposition body now
  step-Moves (records r) run id t s f =
      update_runs-Moves run id t f (run_has_id r) (λ x. record x { recorded = true }) (λ x. refl)
        (λ x _. may_become_refl x.status)
  step-Moves (prunes keep) run id t s f = prune_runs-Moves run id t f keep s
