-- ===== src/Cron/Scheduler/Launched.antt =====
-- The runs that a tick of src/cron-scheduler.mjs launches.
use persistent_harness.Prelude.{
  All, ℕ, String, Bool, true, false, ◌||◌, none, some, List, [], ◌∷◌, ◌==◌, is_some, inl, inr,
  Bool-cases, Outcome-cases,
}
use persistent_harness.Cron.Schedule.{Calendar, next_cron_run_after}
use persistent_harness.Cron.Store.Schema.{Job, Tables}
use persistent_harness.Cron.Store.Jobs.{list_due_jobs}
use persistent_harness.Cron.Store.Claims.{
  Claim, not_due, claimed_run, skipped_run, claim_scheduled_run, has_active_run,
  defer_checked_occurrence, claim_checked_run, list_pending_check_jobs,
}
use persistent_harness.Cron.Scheduler.Taken.{
  IsLaunched, Launches, claim_scheduled_run-Launches, claim_checked_run-LaunchesChecked,
}
use persistent_harness.Cron.Scheduler.{
  Tick, at_or_zero, pending_at, pending_round, pending_rounds, may_start, started_check,
  start_check, claim_taken, claim_round, due_rounds, begin, after_results, tick,
}
use persistent_harness.Cron.Scheduler.Capacity.{either}

module _ (calendar : Calendar) (run_id : String → ℕ → String) where
  abbrev AreLaunched : ℕ → Tick → Type 0
  AreLaunched now s = All (IsLaunched run_id now) s.launched

  pending_round-AreLaunched :
      (now : ℕ) (job : Job) (s : Tick)
      → AreLaunched now s
      → AreLaunched now (pending_round calendar run_id now job s)
  unfolding pending_round
  pending_round-AreLaunched now job s h =
      elim (Outcome-cases
        (claim_checked_run job.id (run_id job.id (pending_at job.pending_check)) now s.tables)) [
          | inr (e, f) ↦ rw (f, pending_round) h
          | inl ((none, t), f) ↦ rw (f, pending_round) h
          | inl ((some (run, j), t), f) ↦
              rw (f, pending_round)
                (
                  claim_checked_run-LaunchesChecked run_id now job.id (pending_at job.pending_check)
                      s.tables t (some (run, j)) f,
                  h,
                )
        ]

  claim_round-AreLaunched :
      (now : ℕ) (job : Job) (s : Tick)
      → AreLaunched now s
      → AreLaunched now (claim_round calendar run_id now job s)
  unfolding claim_round
  claim_round-AreLaunched now job s h =
      elim (Outcome-cases
        (next_cron_run_after calendar job.schedule (at_or_zero job.next_run_at) now)) [
          | inr (e, f) ↦ rw (f, claim_round) h
          | inl (next, f) ↦
              elim (Outcome-cases (
                claim_scheduled_run job.id (run_id job.id (at_or_zero job.next_run_at))
                  (at_or_zero job.next_run_at) next now s.tables)) [
                    | inr (e, g) ↦ rw (f, g, claim_round) h
                    | inl ((k, t), g) ↦
                        rw (f, g, claim_round)
                          (taken k t (
                            claim_scheduled_run-Launches run_id now job.id
                              (at_or_zero job.next_run_at) next s.tables t k g))
                  ]
        ]
    where
      taken :
          (k : Claim) (t : Tables)
          → Launches run_id now k
          → AreLaunched now (claim_taken calendar run_id k t s)
      taken not_due t r = h
      taken (claimed_run run j) t r = (r, h)
      taken (skipped_run run j) t r = h

  start_check-AreLaunched :
      (now : ℕ) (job : Job) (s : Tick)
      → AreLaunched now s
      → AreLaunched now (start_check calendar run_id now job s)
  unfolding start_check
  start_check-AreLaunched now job s h = elim (Bool-cases (may_start calendar run_id job s)) [
    | inr e ↦ rw (e, start_check) h
    | inl e ↦
        elim (Outcome-cases
          (next_cron_run_after calendar job.schedule (at_or_zero job.next_run_at) now)) [
            | inr (x, f) ↦ rw (e, f, start_check) h
            | inl (next, f) ↦
                rw (e, f, start_check)
                  (begun
                    (defer_checked_occurrence job.id (at_or_zero job.next_run_at) next now
                      s.tables).0
                    (defer_checked_occurrence job.id (at_or_zero job.next_run_at) next now
                      s.tables).1)
          ]
  ]
    where
      begun : (d : Bool) (t : Tables) → AreLaunched now (started_check calendar run_id job d t s)
      begun false t = h
      begun true t = either (AreLaunched now) (has_active_run job.id t) _ _ (λ _. h) (λ _. h)

  pending_rounds-AreLaunched :
      (now : ℕ) (jobs : List Job) (s : Tick)
      → AreLaunched now s
      → AreLaunched now (pending_rounds calendar run_id now jobs s)
  unfolding pending_rounds
  pending_rounds-AreLaunched now [] s h = h
  pending_rounds-AreLaunched now (job ∷ jobs) s h =
      either (AreLaunched now) (s.failed || s.capacity == 0) _ _ (λ _. h)
        λ _.
          pending_rounds-AreLaunched now jobs (pending_round calendar run_id now job s)
            (pending_round-AreLaunched now job s h)

  due_rounds-AreLaunched :
      (now : ℕ) (jobs : List Job) (s : Tick)
      → AreLaunched now s
      → AreLaunched now (due_rounds calendar run_id now jobs s)
  unfolding due_rounds
  due_rounds-AreLaunched now [] s h = h
  due_rounds-AreLaunched now (job ∷ jobs) s h =
      either (AreLaunched now) s.failed _ _ (λ _. h)
        λ _.
          either (AreLaunched now) (is_some job.check) _ _
            (λ _.
              due_rounds-AreLaunched now jobs (start_check calendar run_id now job s)
                (start_check-AreLaunched now job s h))
            λ _.
              either (AreLaunched now) (s.capacity == 0) _ _ (λ _. h)
                λ _.
                  due_rounds-AreLaunched now jobs (claim_round calendar run_id now job s)
                    (claim_round-AreLaunched now job s h)

  -- Every run that a tick launches, also one in which a call throws later, is a run that was claimed at the
  -- time of the tick by its schedule and is not over. A run without a check's result has the id of its
  -- job and its occurrence, one with such a result an id of its job.
  pub tick-IsLaunched :
      (max_parallel now : ℕ) (checks : List String) (t : Tables)
      → All (IsLaunched run_id now) (tick calendar run_id max_parallel now checks t).launched
  unfolding tick
  tick-IsLaunched max_parallel now checks t =
      let s =
        pending_rounds calendar run_id now (list_pending_check_jobs 64 t)
          (begin calendar run_id max_parallel checks t) in
      let claimed =
        pending_rounds-AreLaunched now (list_pending_check_jobs 64 t)
          (begin calendar run_id max_parallel checks t) tt in
      let due : AreLaunched now (after_results calendar run_id now s) =
        either (AreLaunched now) s.failed _ _ (λ _. claimed)
          (λ _. due_rounds-AreLaunched now (list_due_jobs now 64 s.tables) s claimed) in
      either (AreLaunched now) (after_results calendar run_id now s).failed _ _ (λ _. due)
        (λ _. due)
