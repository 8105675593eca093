-- ===== src/Cron/Scheduler/Capacity.antt =====
-- How much a tick of src/cron-scheduler.mjs starts.
use persistent_harness.Prelude.{
  ℕ, ◌+◌, ◌-◌, ◌≤◌, ◌≡◌, refl, arith, String, Bool, true, false, ◌||◌, none, some, List, [], ◌∷◌,
  ◌==◌, if◌then◌else◌, is_some, length, count-select-le, inl, inr, Bool-cases, Outcome-cases,
}
use persistent_harness.Cron.Schedule.{Calendar, next_cron_run_after}
use persistent_harness.Cron.Store.Schema.{Job, Tables}
use persistent_harness.Cron.Store.Jobs.{list_due_jobs, count_active_runs}
use persistent_harness.Cron.Store.Runs.{prune_runs, not_prunable}
use persistent_harness.Cron.Store.Claims.{
  Claim, not_due, claimed_run, skipped_run, claim_scheduled_run, has_active_run,
  defer_checked_occurrence, claim_checked_run, list_pending_check_jobs,
}
use persistent_harness.Cron.Scheduler.{
  Tick, max_concurrent_checks, at_or_zero, pending_at, pending_round, pending_rounds, may_start,
  started_check, start_check, claim_taken, claim_round, due_rounds, pruned, begin, after_results,
  tick,
}
use persistent_harness.Cron.Scheduler.Room.{
  active, room_of, defer-count, claim_scheduled_run-room, claim_checked_run-room,
}

-- What a tick has taken and still has of the room, and the checks that run.
abbrev IsRoomy : ℕ → ℕ → ℕ → Tick → Type 0
IsRoomy bound room most s =
    (count_active_runs s.tables + s.capacity ≤ bound)
    × (length s.launched + s.capacity ≤ room)
    × (length s.checks ≤ most)

pub either :
    (P : Tick → Type 0) (b : Bool) (x y : Tick)
    → (b ≡ true → P x)
    → (b ≡ false → P y)
    → P (if b then x else y)
either P true x y l r = l refl
either P false x y l r = r refl

module _ (calendar : Calendar) (run_id : String → ℕ → String) (bound room most : ℕ) where
  pending_round-IsRoomy :
      (now : ℕ) (job : Job) (s : Tick)
      → IsRoomy bound room most s
      → 1 ≤ s.capacity
      → IsRoomy bound room most (pending_round calendar run_id now job s)
  unfolding pending_round
  pending_round-IsRoomy now job s (a, b, c) h =
      elim (Outcome-cases
        (claim_checked_run job.id (run_id job.id (pending_at job.pending_check)) now s.tables)) [
          | inr (e, f) ↦ rw (f, pending_round) (a, b, c)
          | inl ((none, t), f) ↦
              let r = claim_checked_run-room job.id _ now s.tables t none f in
              rw (f, pending_round) (omega arith, b, c)
          | inl ((some (run, j), t), f) ↦
              let r = claim_checked_run-room job.id _ now s.tables t (some (run, j)) f in
              rw (f, pending_round) (omega arith, omega arith, c)
        ]

  claim_round-IsRoomy :
      (now : ℕ) (job : Job) (s : Tick)
      → IsRoomy bound room most s
      → 1 ≤ s.capacity
      → IsRoomy bound room most (claim_round calendar run_id now job s)
  unfolding claim_round
  claim_round-IsRoomy now job s (a, b, c) h =
      elim (Outcome-cases
        (next_cron_run_after calendar job.schedule (at_or_zero job.next_run_at) now)) [
          | inr (e, f) ↦ rw (f, claim_round) (a, b, c)
          | inl (next, f) ↦
              elim (Outcome-cases (
                claim_scheduled_run job.id (run_id job.id (at_or_zero job.next_run_at))
                  (at_or_zero job.next_run_at) next now s.tables)) [
                    | inr (e, g) ↦ rw (f, g, claim_round) (a, b, c)
                    | inl ((k, t), g) ↦
                        rw (f, g, claim_round)
                          (taken k t (claim_scheduled_run-room job.id _ _ next now s.tables t k g))
                  ]
        ]
    where
      taken :
          (k : Claim) (t : Tables)
          → count_active_runs t ≤ count_active_runs s.tables + room_of k
          → IsRoomy bound room most (claim_taken calendar run_id k t s)
      taken not_due t r = (omega arith, b, c)
      taken (claimed_run run j) t r = (omega arith, omega arith, c)
      taken (skipped_run run j) t r = (omega arith, b, c)

  start_check-IsRoomy :
      (now : ℕ) (job : Job) (s : Tick)
      → IsRoomy bound room most s
      → max_concurrent_checks ≤ most
      → IsRoomy bound room most (start_check calendar run_id now job s)
  unfolding start_check
  start_check-IsRoomy now job s (a, b, c) m = elim (Bool-cases (may_start calendar run_id job s)) [
    | inr e ↦ rw (e, start_check) (a, b, c)
    | inl e ↦
        elim (Outcome-cases
          (next_cron_run_after calendar job.schedule (at_or_zero job.next_run_at) now)) [
            | inr (x, f) ↦ rw (e, f, start_check) (a, b, c)
            | inl (next, f) ↦
                rw (e, f, start_check)
                  (begun
                    (defer_checked_occurrence job.id (at_or_zero job.next_run_at) next now
                      s.tables).0
                    (defer_checked_occurrence job.id (at_or_zero job.next_run_at) next now
                      s.tables).1
                    (defer-count job.id (at_or_zero job.next_run_at) next now s.tables) (few e))
          ]
  ]
    where
      few : may_start calendar run_id job s ≡ true → 1 + length s.checks ≤ most
      few e = ground arith

      begun :
          (d : Bool) (t : Tables)
          → count_active_runs t ≤ count_active_runs s.tables
          → 1 + length s.checks ≤ most
          → IsRoomy bound room most (started_check calendar run_id job d t s)
      begun false t r l = (omega arith, b, c)
      begun true t r l = elim (Bool-cases (has_active_run job.id t)) [
        | inl g ↦ rw (g, started_check) (omega arith, b, c)
        | inr g ↦ rw (g, started_check) (omega arith, b, omega arith)
      ]

  pending_rounds-IsRoomy :
      (now : ℕ) (jobs : List Job) (s : Tick)
      → IsRoomy bound room most s
      → IsRoomy bound room most (pending_rounds calendar run_id now jobs s)
  unfolding pending_rounds
  pending_rounds-IsRoomy now [] s r = r
  pending_rounds-IsRoomy now (job ∷ jobs) s r = elim (Bool-cases (s.failed || s.capacity == 0)) [
    | inl e ↦ rw (e, pending_rounds) r
    | inr e ↦
        rw (e, pending_rounds)
          (pending_rounds-IsRoomy now jobs (pending_round calendar run_id now job s)
            (pending_round-IsRoomy now job s r (left e)))
  ]
    where
      left : s.failed || s.capacity == 0 ≡ false → 1 ≤ s.capacity
      left e = ground arith

  due_rounds-IsRoomy :
      (now : ℕ) (jobs : List Job) (s : Tick)
      → IsRoomy bound room most s
      → max_concurrent_checks ≤ most
      → IsRoomy bound room most (due_rounds calendar run_id now jobs s)
  unfolding due_rounds
  due_rounds-IsRoomy now [] s r m = r
  due_rounds-IsRoomy now (job ∷ jobs) s r m =
      either (IsRoomy bound room most) s.failed _ _ (λ _. r)
        λ _.
          either (IsRoomy bound room most) (is_some job.check) _ _
            (λ _.
              due_rounds-IsRoomy now jobs (start_check calendar run_id now job s)
                (start_check-IsRoomy now job s r m) m)
            λ _.
              either (IsRoomy bound room most) (s.capacity == 0) _ _ (λ _. r)
                λ g.
                  due_rounds-IsRoomy now jobs (claim_round calendar run_id now job s)
                    (claim_round-IsRoomy now job s r (left g)) m
    where
      left : (s.capacity == 0) ≡ false → 1 ≤ s.capacity
      left g = ground arith

  after_results-IsRoomy :
      (now : ℕ) (s : Tick)
      → IsRoomy bound room most s
      → max_concurrent_checks ≤ most
      → IsRoomy bound room most (after_results calendar run_id now s)
  after_results-IsRoomy now s r m =
      either (IsRoomy bound room most) s.failed _ _ (λ _. r)
        λ _. due_rounds-IsRoomy now (list_due_jobs now 64 s.tables) s r m

  pruned-IsRoomy :
      (s : Tick) → IsRoomy bound room most s → IsRoomy bound room most (pruned calendar run_id s)
  unfolding prune_runs count_active_runs
  pruned-IsRoomy s (a, b, c) =
      let fewer = count-select-le active (not_prunable 50 s.tables) s.tables.runs in
      either (IsRoomy bound room most) s.failed _ _ (λ _. (a, b, c)) λ _. (omega arith, b, c)

-- A tick, also one in which a call throws, leaves no more runs active than the limit, or than there
-- were; it launches no more runs than there was room for, and has no more checks running than four, or
-- than there were.
pub tick-capacity :
    (calendar : Calendar) (run_id : String → ℕ → String) (max_parallel now most : ℕ)
    (checks : List String) (t : Tables)
    → length checks ≤ most
    → max_concurrent_checks ≤ most
    → (count_active_runs (tick calendar run_id max_parallel now checks t).tables
        ≤ count_active_runs t + (max_parallel - count_active_runs t))
      × (length (tick calendar run_id max_parallel now checks t).launched
          ≤ max_parallel - count_active_runs t)
      × (length (tick calendar run_id max_parallel now checks t).checks ≤ most)
unfolding tick
tick-capacity calendar run_id max_parallel now most checks t h m =
    let room = max_parallel - count_active_runs t in
    let bound = count_active_runs t + room in
    let s = begin calendar run_id max_parallel checks t in
    let start : IsRoomy bound room most s = (omega arith, omega arith, h) in
    let collected =
      pending_rounds calendar run_id now (list_pending_check_jobs 64 t)
        (begin calendar run_id max_parallel checks t) in
    let claimed =
      pending_rounds-IsRoomy calendar run_id bound room most now (list_pending_check_jobs 64 t) s
        start in
    let done = after_results-IsRoomy calendar run_id bound room most now collected claimed m in
    kept (pruned calendar run_id (after_results calendar run_id now collected)) (
      pruned-IsRoomy calendar run_id bound room most (after_results calendar run_id now collected)
        done)
  where
    kept :
        (s : Tick)
        → IsRoomy
            (count_active_runs t + (max_parallel - count_active_runs t))
            (max_parallel - count_active_runs t)
            most
            s
        → (count_active_runs s.tables ≤ count_active_runs t + (max_parallel - count_active_runs t))
          × (length s.launched ≤ max_parallel - count_active_runs t)
          × (length s.checks ≤ most)
    kept s (a, b, c) = (omega arith, omega arith, c)
