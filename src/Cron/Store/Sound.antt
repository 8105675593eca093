-- ===== src/Cron/Store/Sound.antt =====
-- The invariant of the cron tables, and that the statements of src/cron-store.mjs keep it.
pub mod Rules
pub mod JobCalls
pub mod ClaimCalls
pub mod RunCalls
pub mod History
use persistent_harness.Prelude.{
  ℕ, ◌≤◌, ◌≡◌, String, Bool, true, false, ◌&&◌, is_some, first, count, All,
}
use persistent_harness.Cron.Store.Schema.{
  JobState, scheduled, paused, completed, removed, Job, Run, Tables, is_scheduled, has_id,
  run_has_id, active_for, occurrence_of,
}

abbrev pub is_over : JobState → Bool
is_over scheduled = false
is_over paused = false
is_over completed = true
is_over removed = true

-- A job is enabled exactly while it is scheduled, and one that is over has no next run.
abbrev pub IsConsistent : Job → Type 0
IsConsistent job =
    (job.enabled ≡ is_scheduled job.state)
    × ((is_over job.state && is_some job.next_run_at) ≡ false)

-- Ids are unique, a job has one active run at most and one run for an occurrence of its schedule,
-- each run belongs to a job, and the rows of jobs are consistent.
pub record IsSound (t : Tables) : Type 0 where
  pub job_ids : (id : String) → count (has_id id) t.jobs ≤ 1
  pub run_ids : (id : String) → count (run_has_id id) t.runs ≤ 1
  pub one_active : (job_id : String) → count (active_for job_id) t.runs ≤ 1
  pub one_occurrence : (job_id : String) (at : ℕ) → count (occurrence_of job_id at) t.runs ≤ 1
  pub run_jobs : All (λ run. is_some (first (has_id run.job_id) t.jobs) ≡ true) t.runs
  pub rows : All IsConsistent t.jobs
