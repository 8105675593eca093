-- ===== src/Cron/Store/Life/Claiming.antt =====
-- What a claim of src/cron-store.mjs does, on every branch.
use persistent_harness.Prelude.{
  ℕ, ◌+◌, ◌<◌, ◌≡◌, ◌∙◌, refl, ap, arith, String, Bool, true, false, Option-cases, inl, inr, Option,
  none, some, List, [], ◌∷◌, ◌++◌, first, first-update_self, changed, count, count-append,
  count-none, update, eq_refl, ==_iff, is_some, if◌then◌else◌, leb, ◌&&◌, ok,
}
use persistent_harness.Cron.Store.Schema.{
  claimed, skipped_overlap, Job, Run, Tables, has_id, run_has_id, active_for, occurrence_of,
  is_scheduled, scheduled, completed,
}
use persistent_harness.Cron.Store.Jobs.{get_job}
use persistent_harness.Cron.Store.Runs.{get_run}
use persistent_harness.Cron.Store.Claims.{
  not_due, claimed_run, skipped_run, due_at, scheduled_run, fired_job, number_is, claim_due,
  claim_scheduled_run, claim_result, claim_status,
}

-- The run and the job that a claim of a due occurrence leaves in the tables. `busy` is whether the job
-- had an active run, and `next` when it runs again.
pub record IsClaimed (run_id : String) (scheduled_at now : ℕ) (busy : Bool) (next : Option ℕ)
    (job : Job) (run : Run) (fired : Job) (t : Tables) : Type 0 where
  pub stored : get_run t run_id ≡ some run
  pub owner : run.job_id ≡ job.id
  pub occurrence : run.scheduled_at ≡ scheduled_at
  pub status : run.status ≡ (if busy then skipped_overlap else claimed)
  pub claimed_at : run.claimed_at ≡ now
  pub completed_at : run.completed_at ≡ (if busy then some now else none)
  pub only_run : count (occurrence_of job.id scheduled_at) t.runs ≡ 1
  pub updated : get_job t job.id ≡ some fired
  pub fire_count : fired.fire_count ≡ job.fire_count + 1
  pub next_run_at : fired.next_run_at ≡ next
  pub enabled : fired.enabled ≡ is_some next
  pub state : fired.state ≡ (if is_some next then scheduled else completed)
  pub last_run_at : fired.last_run_at ≡ some scheduled_at
  pub last_status : fired.last_status ≡ some run.status
  pub last_error : fired.last_error ≡ run.error

claim_due-due :
    (run_id : String) (scheduled_at : ℕ) (next_run_at : Option ℕ) (now : ℕ) (job : Job) (t : Tables)
    → get_job t job.id ≡ some job
    → first (run_has_id run_id) t.runs ≡ none
    → first (occurrence_of job.id scheduled_at) t.runs ≡ none
    → let active = first (active_for job.id) t.runs in
      let run = scheduled_run run_id job scheduled_at active now in
      claim_due run_id scheduled_at next_run_at now job t
      ≡ ok (
        claim_result active run (fired_job scheduled_at next_run_at active now job),
        record t {
          runs = t.runs ++ run ∷ [];
          jobs = update (has_id job.id) (fired_job scheduled_at next_run_at active now) t.jobs;
        },
      )
unfolding claim_due get_job
claim_due-due run_id scheduled_at next_run_at now job t found fresh unclaimed =
    elim (Option-cases (first (active_for job.id) t.runs)) [
      | inl idle ↦ rw (idle, fresh, found, unclaimed)
      | inr (active, busy) ↦ rw (busy, fresh, found, unclaimed)
    ]

claim_scheduled_run-row :
    (run_id : String) (scheduled_at : ℕ) (next_run_at : Option ℕ) (now : ℕ) (job : Job) (t : Tables)
    → get_job t job.id ≡ some job
    → due_at scheduled_at job ≡ true
    → first (run_has_id run_id) t.runs ≡ none
    → first (occurrence_of job.id scheduled_at) t.runs ≡ none
    → let active = first (active_for job.id) t.runs in
      let run = scheduled_run run_id job scheduled_at active now in
      claim_scheduled_run job.id run_id scheduled_at next_run_at now t
      ≡ ok (
        claim_result active run (fired_job scheduled_at next_run_at active now job),
        record t {
          runs = t.runs ++ run ∷ [];
          jobs = update (has_id job.id) (fired_job scheduled_at next_run_at active now) t.jobs;
        },
      )
unfolding claim_scheduled_run
claim_scheduled_run-row run_id scheduled_at next_run_at now job t e due fresh unclaimed =
    rw (e, claim_scheduled_run)
      (rw due (claim_due-due run_id scheduled_at next_run_at now job t e fresh unclaimed))

-- A row that was not there is found at the end.
first-append_new :
    {A : Type 0} (p : A → Bool) (xs : List A) (x : A)
    → first p xs ≡ none
    → p x ≡ true
    → first p (xs ++ x ∷ []) ≡ some x
unfolding first
first-append_new p [] x h e = rw e refl
first-append_new p (y ∷ xs) x h e = ground (arith, first-append_new p xs x)

-- The only run for an occurrence that had none.
count-append_new :
    {A : Type 0} (p : A → Bool) (xs : List A) (x : A)
    → first p xs ≡ none
    → p x ≡ true
    → count p (xs ++ x ∷ []) ≡ 1
unfolding count
count-append_new p xs x h e = count-append p xs (x ∷ []) ∙ rw (count-none p xs h) (rw e refl)

-- A time that is later, or none, is not the time of the occurrence.
past_due :
    (spent : Bool) (at : ℕ) (next_run_at : Option ℕ)
    → ((n : ℕ) → next_run_at ≡ some n → at < n)
    → let next = if spent then none else next_run_at in
      is_some next
        && is_scheduled (if is_some next then scheduled else completed)
        && number_is at next
      ≡ false
past_due true at next_run_at later = refl
past_due false at none later = refl
past_due false at (some n) later = ground (arith, later n refl)

-- A claim of a due occurrence that has no run, under an id that is not used yet, where the job runs again
-- later than the occurrence or not at all. The run is stored and is the only run of the occurrence; it is
-- claimed, or skipped and over at once if the job had an active run. The job has fired once more, shows
-- the run's status, and is to run at the next time, or not again if it has fired as often as it may. A
-- second claim of the occurrence, under whatever id and whenever, finds nothing due and changes nothing.
pub claim_scheduled_run-due :
    (run_id again : String) (scheduled_at : ℕ) (next_run_at : Option ℕ) (now later : ℕ) (job : Job)
    (t : Tables)
    → get_job t job.id ≡ some job
    → due_at scheduled_at job ≡ true
    → first (run_has_id run_id) t.runs ≡ none
    → first (occurrence_of job.id scheduled_at) t.runs ≡ none
    → ((n : ℕ) → next_run_at ≡ some n → scheduled_at < n)
    → let busy : Bool = is_some (first (active_for job.id) t.runs) in
      let spent : Bool = elim job.repeat_times [
        | none ↦ false
        | some times ↦ leb times (job.fire_count + 1)
      ] in
      (run : Run) × (fired : Job) × (t' : Tables) × (claim_scheduled_run job.id run_id scheduled_at
          next_run_at now t
        ≡ ok (if busy then skipped_run run fired else claimed_run run fired, t'))
      × IsClaimed run_id scheduled_at now busy
          (if spent then none else next_run_at)
          job
          run
          fired
          t'
      × (claim_scheduled_run job.id again scheduled_at next_run_at later t' ≡ ok (not_due, t'))
unfolding claim_scheduled_run scheduled_run fired_job get_job get_run
claim_scheduled_run-due run_id again scheduled_at next_run_at now later job t e due fresh unclaimed
      after =
    (
      new,
      fired,
      t',
      claim_scheduled_run-row run_id scheduled_at next_run_at now job t e due fresh unclaimed
          ∙ ap (λ c. ok (c, t')) (either_claim active),
      record {
        stored = first-append_new (run_has_id run_id) t.runs new fresh (eq_refl run_id);
        owner = refl;
        occurrence = refl;
        status = status_of active;
        claimed_at = refl;
        completed_at = refl;
        only_run = count-append_new (occurrence_of job.id scheduled_at) t.runs new unclaimed same;
        updated = updated;
        fire_count = refl;
        next_run_at = refl;
        enabled = refl;
        state = refl;
        last_run_at = refl;
        last_status = refl;
        last_error = refl;
      },
      rw (updated, claim_scheduled_run) (rw (not_due_now) refl),
    )
  where
    active : Option Run
    active = first (active_for job.id) t.runs

    new : Run
    new = scheduled_run run_id job scheduled_at active now

    fired : Job
    fired = fired_job scheduled_at next_run_at active now job

    t' : Tables
    t' = record t {
      runs = t.runs ++ new ∷ [];
      jobs = update (has_id job.id) (fired_job scheduled_at next_run_at active now) t.jobs;
    }

    either_claim :
        (o : Option Run)
        → claim_result o new fired
          ≡ (if is_some o then skipped_run new fired else claimed_run new fired)
    either_claim none = refl
    either_claim (some r) = refl

    status_of : (o : Option Run) → claim_status o ≡ (if is_some o then skipped_overlap else claimed)
    status_of none = refl
    status_of (some r) = refl

    same : occurrence_of job.id scheduled_at new ≡ true
    same = rw (eq_refl job.id, (==_iff scheduled_at scheduled_at).1 refl) refl

    updated : get_job t' job.id ≡ some fired
    updated =
        first-update_self (has_id job.id) (fired_job scheduled_at next_run_at active now) t.jobs
          (λ j h. h)
        ∙ ap (changed (fired_job scheduled_at next_run_at active now)) e

    not_due_now : due_at scheduled_at fired ≡ false
    not_due_now =
        past_due
          (elim job.repeat_times as (λ x. Bool) [
            | none ↦ false
            | some times ↦ leb times (job.fire_count + 1)
          ])
          scheduled_at next_run_at after
