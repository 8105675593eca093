-- ===== src/Cron/Store/Life/Alerts.antt =====
-- A failing check of src/cron-store.mjs wakes the agent once.
use persistent_harness.Prelude.{
  ℕ, zero, suc, ◌+◌, ◌≡◌, refl, ap, ◌∙◌, String, true, false, not, ◌&&◌, Bool-cases, inl, inr, some,
  arith, leb, ltb, first-update_self, changed, if◌then◌else◌,
}
use persistent_harness.Cron.Store.Schema.{Job, Tables, has_id}
use persistent_harness.Cron.Store.Jobs.{get_job, update_jobs}
use persistent_harness.Cron.Store.Checks.{failing, alerted_row, record_check_failure}

updated_row :
    (f : Job → Job) (job_id : String) (job : Job) (t : Tables)
    → ((x : Job) → (f x).id ≡ x.id)
    → get_job t job_id ≡ some job
    → get_job (update_jobs (has_id job_id) f t) job_id ≡ some (f job)
unfolding get_job update_jobs
updated_row f job_id job t keeps e =
    first-update_self (has_id job_id) f t.jobs (λ x h. rw (keeps x) h) ∙ ap (changed f) e

-- The row of a job after one more failure.
abbrev failed_row : String → ℕ → ℕ → Job → Job
failed_row error threshold now job =
    if leb threshold (job.check_failures + 1) && not job.check_alerted
    then alerted_row (failing error now job)
    else failing error now job

record_check_failure_lem :
    (job_id error : String) (threshold now : ℕ) (job : Job) (t : Tables)
    → get_job t job_id ≡ some job
    → let out = record_check_failure job_id error threshold now t in
      (out.0.0 ≡ job.check_failures + 1)
      × (out.0.1 ≡ leb threshold (job.check_failures + 1) && not job.check_alerted)
      × (get_job out.1 job_id ≡ some (failed_row error threshold now job))
unfolding record_check_failure
record_check_failure_lem job_id error threshold now job t e =
    let counted = update_jobs (has_id job_id) (failing error now) t in
    let found : get_job counted job_id ≡ some (failing error now job) =
      updated_row (failing error now) job_id job t (λ x. refl) e in
    let again : get_job (update_jobs (has_id job_id) alerted_row counted) job_id
        ≡ some (alerted_row (failing error now job)) =
      updated_row alerted_row job_id (failing error now job) counted (λ x. refl) found in
    rw (found, record_check_failure)
      (
        refl,
        refl,
        elim (Bool-cases (leb threshold (job.check_failures + 1) && not job.check_alerted)) [
          | inl loud ↦ rw loud again
          | inr quiet ↦ rw quiet found
        ],
      )

-- How many of `n` failures in a row wake the agent.
pub wakes : ℕ → String → String → ℕ → ℕ → Tables → ℕ
wakes zero job_id error threshold now t = 0
wakes (suc n) job_id error threshold now t =
    let (result, t') = record_check_failure job_id error threshold now t in
    (if result.1 then 1 else 0) + wakes n job_id error threshold now t'

-- No failure wakes the agent once one has.
wakes_alerted :
    (n : ℕ) (job_id error : String) (threshold now : ℕ) (job : Job) (t : Tables)
    → get_job t job_id ≡ some job
    → job.check_alerted ≡ true
    → wakes n job_id error threshold now t ≡ 0
unfolding wakes
wakes_alerted zero job_id error threshold now job t e a = refl
wakes_alerted (suc n) job_id error threshold now job t e a =
    let out = record_check_failure job_id error threshold now t in
    let (_, alert, row) = record_check_failure_lem job_id error threshold now job t e in
    ground (
      arith,
      alert,
      wakes_alerted n job_id error threshold now (failed_row error threshold now job) out.1 row,
    )

-- A streak of failures from a row that has not alerted wakes the agent once if it reaches the
-- threshold, and not at all if it does not.
pub wakes_once :
    (n : ℕ) (job_id error : String) (threshold now : ℕ) (job : Job) (t : Tables)
    → get_job t job_id ≡ some job
    → job.check_alerted ≡ false
    → wakes n job_id error threshold now t
      ≡ (if ltb 0 n && leb threshold (job.check_failures + n) then 1 else 0)
unfolding wakes
wakes_once zero job_id error threshold now job t e a = refl
wakes_once (suc n) job_id error threshold now job t e a =
    let out = record_check_failure job_id error threshold now t in
    let (_, alert, row) = record_check_failure_lem job_id error threshold now job t e in
    let next = failed_row error threshold now job in
    ground (
      arith,
      alert,
      wakes_alerted n job_id error threshold now next out.1 row,
      wakes_once n job_id error threshold now next out.1 row,
    )
