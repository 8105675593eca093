-- ===== src/Cron/Store/Sound/Rules.antt =====
-- The three kinds of statement (insert a run, update runs, update jobs) keep the invariant.
use persistent_harness.Prelude.{
  ℕ, ◌≡◌, refl, String, Bool, true, not, ◌||◌, Option, none, some, List, [], ◌∷◌, ◌++◌, arith,
  eq_iff, is_some, is_none, first, count, count-none, count-update-le, count-update-eq, All-append,
  All-update, All-mono, count-append_le_one, first-update-is_some, first-append-is_some, ok,
}
use persistent_harness.Cron.Store.Schema.{
  Job, Run, Tables, is_by_schedule, is_active, has_id, run_has_id, active_for, occurrence_of,
  insert_run,
}
use persistent_harness.Cron.Store.Jobs.{update_jobs}
use persistent_harness.Cron.Store.Runs.{update_runs}
use persistent_harness.Cron.Store.Sound.{IsSound, IsConsistent}

none_of_is_none {ℓ} : {A : Type ℓ} (o : Option A) → is_none o ≡ true → o ≡ none
none_of_is_none none h = refl
none_of_is_none (some a) h = cc

-- What an accepted insertion has checked.
pub insert_run-inv :
    (run : Run) (t t' : Tables)
    → insert_run run t ≡ ok t'
    → (first (run_has_id run.id) t.runs ≡ none)
      × (is_some (first (has_id run.job_id) t.jobs) ≡ true)
      × ((not (is_by_schedule run.source)
            || is_none (first (occurrence_of run.job_id run.scheduled_at) t.runs))
          ≡ true)
      × ((not (is_active run.status) || is_none (first (active_for run.job_id) t.runs)) ≡ true)
      × (t' ≡ record t { runs = t.runs ++ run ∷ [] })
unfolding insert_run
insert_run-inv run t t' h = ground arith

count_of_is_none {ℓ} :
    {A : Type ℓ} (q : A → Bool) (xs : List A) → is_none (first q xs) ≡ true → count q xs ≡ 0
count_of_is_none q xs h = count-none q xs (none_of_is_none (first q xs) h)

-- A condition that the new row meets is its own, and that was checked.
fresh_id :
    (run : Run) (runs : List Run) (id : String)
    → first (run_has_id run.id) runs ≡ none
    → run_has_id id run ≡ true
    → count (run_has_id id) runs ≡ 0
fresh_id run runs id h e = rw (← (eq_iff run.id id).0 e) (count-none (run_has_id run.id) runs h)

fresh_active :
    (run : Run) (runs : List Run) (job_id : String)
    → (not (is_active run.status) || is_none (first (active_for run.job_id) runs)) ≡ true
    → active_for job_id run ≡ true
    → count (active_for job_id) runs ≡ 0
fresh_active run runs job_id h e =
    let same : run.job_id ≡ job_id = (eq_iff run.job_id job_id).0 (ground arith) in
    rw (← same) (count_of_is_none (active_for run.job_id) runs (ground arith))

fresh_occurrence :
    (run : Run) (runs : List Run) (job_id : String) (at : ℕ)
    → (not (is_by_schedule run.source)
        || is_none (first (occurrence_of run.job_id run.scheduled_at) runs))
      ≡ true
    → occurrence_of job_id at run ≡ true
    → count (occurrence_of job_id at) runs ≡ 0
fresh_occurrence run runs job_id at h e =
    let same : run.job_id ≡ job_id = (eq_iff run.job_id job_id).0 (ground arith) in
    let when : run.scheduled_at ≡ at = ground arith in
    rw (← same, ← when)
      (count_of_is_none (occurrence_of run.job_id run.scheduled_at) runs (ground arith))

inserted-IsSound :
    (run : Run) (t : Tables)
    → (first (run_has_id run.id) t.runs ≡ none)
    → (is_some (first (has_id run.job_id) t.jobs) ≡ true)
    → ((not (is_by_schedule run.source)
          || is_none (first (occurrence_of run.job_id run.scheduled_at) t.runs))
        ≡ true)
    → ((not (is_active run.status) || is_none (first (active_for run.job_id) t.runs)) ≡ true)
    → IsSound t
    → IsSound (record t { runs = t.runs ++ run ∷ [] })
inserted-IsSound run t key job occurrence active s = record {
  job_ids = s.job_ids;
  run_ids = λ id. count-append_le_one _ run t.runs (fresh_id run t.runs id key) (s.run_ids id);
  one_active =
      λ id. count-append_le_one _ run t.runs (fresh_active run t.runs id active) (s.one_active id);
  one_occurrence = λ id at.
      count-append_le_one _ run t.runs (fresh_occurrence run t.runs id at occurrence)
        (s.one_occurrence id at);
  run_jobs = All-append _ t.runs (run ∷ []) s.run_jobs (job, tt);
  rows = s.rows;
}

pub insert_run-IsSound :
    (run : Run) (t t' : Tables) → insert_run run t ≡ ok t' → IsSound t → IsSound t'
insert_run-IsSound run t t' h s =
    let (key, job, occurrence, active, e) = insert_run-inv run t t' h in
    rw e (inserted-IsSound run t key job occurrence active s)

-- An update of runs may not move a run to another job or occurrence, nor make it active.
pub record KeepsRun (p : Run → Bool) (f : Run → Run) : Type 0 where
  pub id : (run : Run) → (f run).id ≡ run.id
  pub job_id : (run : Run) → (f run).job_id ≡ run.job_id
  pub source : (run : Run) → (f run).source ≡ run.source
  pub scheduled_at : (run : Run) → (f run).scheduled_at ≡ run.scheduled_at
  pub active :
      (run : Run) → p run ≡ true → is_active (f run).status ≡ true → is_active run.status ≡ true

pub update_runs-IsSound :
    (p : Run → Bool) (f : Run → Run) (t : Tables)
    → KeepsRun p f
    → IsSound t
    → IsSound (update_runs p f t)
unfolding update_runs
update_runs-IsSound p f t k s = record {
  job_ids = s.job_ids;
  run_ids =
      λ id. rw (count-update-eq (run_has_id id) p f t.runs (λ run _. rw (k.id run))) (s.run_ids id);
  one_active = λ id. omega (
    arith,
    count-update-le (active_for id) p f t.runs
        (λ run h e. ground (arith, k.job_id run, k.active run h)),
    s.one_active id,
  );
  one_occurrence = λ id at.
      rw
        (count-update-eq (occurrence_of id at) p f t.runs
          (λ run _. rw (k.source run, k.job_id run, k.scheduled_at run)))
        (s.one_occurrence id at);
  run_jobs = All-update _ p f t.runs (λ run _ h. rw (k.job_id run) h) s.run_jobs;
  rows = s.rows;
}

-- An update of jobs may not change an id, and keeps rows consistent.
pub record KeepsJob (p : Job → Bool) (f : Job → Job) : Type 0 where
  pub id : (job : Job) → (f job).id ≡ job.id
  pub row : (job : Job) → p job ≡ true → IsConsistent job → IsConsistent (f job)

pub update_jobs-IsSound :
    (p : Job → Bool) (f : Job → Job) (t : Tables)
    → KeepsJob p f
    → IsSound t
    → IsSound (update_jobs p f t)
unfolding update_jobs
update_jobs-IsSound p f t k s = record {
  job_ids =
      λ id. rw (count-update-eq (has_id id) p f t.jobs (λ job _. rw (k.id job))) (s.job_ids id);
  run_ids = s.run_ids;
  one_active = s.one_active;
  one_occurrence = s.one_occurrence;
  run_jobs =
      All-mono _ _ t.runs
        (λ run h. rw (first-update-is_some (has_id run.job_id) p f t.jobs (λ job. rw (k.id job))) h)
        s.run_jobs;
  rows = All-update IsConsistent p f t.jobs k.row s.rows;
}

pub insert_job-IsSound :
    (job : Job) (t : Tables)
    → is_none (first (has_id job.id) t.jobs) ≡ true
    → IsConsistent job
    → IsSound t
    → IsSound (record t { jobs = t.jobs ++ job ∷ [] })
insert_job-IsSound job t free c s = record {
  job_ids = λ id.
      count-append_le_one (has_id id) job t.jobs
        (λ e. rw (← (eq_iff job.id id).0 e) (count_of_is_none (has_id job.id) t.jobs free))
        (s.job_ids id);
  run_ids = s.run_ids;
  one_active = s.one_active;
  one_occurrence = s.one_occurrence;
  run_jobs =
      All-mono _ _ t.runs (λ run h. first-append-is_some (has_id run.job_id) t.jobs (job ∷ []) h)
        s.run_jobs;
  rows = All-append IsConsistent t.jobs (job ∷ []) s.rows (c, tt);
}
