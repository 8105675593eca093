-- ===== src/Cron/Scheduler.antt =====
-- A tick of `CronScheduler` of src/cron-scheduler.mjs. The dispatch of a run and the check command
-- itself go on after the tick: here they are the runs that are launched and the checks that are started.
pub mod Room
pub mod Capacity
pub mod Taken
pub mod Launched
use persistent_harness.Prelude.{
  ℕ, ◌+◌, ◌-◌, String, Bool, true, false, not, ◌&&◌, ◌||◌, Option, none, some, List, [], ◌∷◌, leb,
  ◌==◌, if◌then◌else◌, is_some, is_none, length, ok, err,
}
use persistent_harness.Cron.Schedule.{Calendar, next_cron_run_after}
use persistent_harness.Cron.Store.Schema.{Job, Run, Tables, PendingCheck, member}
use persistent_harness.Cron.Store.Jobs.{list_due_jobs, count_active_runs}
use persistent_harness.Cron.Store.Runs.{prune_runs}
use persistent_harness.Cron.Store.Claims.{
  Claim, not_due, claimed_run, skipped_run, claim_scheduled_run, has_active_run,
  defer_checked_occurrence, claim_checked_run, list_pending_check_jobs,
}

abbrev pub max_concurrent_checks : ℕ
max_concurrent_checks = 4

-- The tables and `#checks`, the counts of a tick, what it starts, and whether a call has thrown.
pub record Tick : Type 0 where
  pub tables : Tables
  pub checks : List String
  pub capacity : ℕ
  pub claimed : ℕ
  pub skipped : ℕ
  pub launched : List Run
  pub started : List Job
  pub failed : Bool

abbrev launch : Run → Tables → Tick → Tick
launch run t s = record s {
  tables = t;
  capacity = s.capacity - 1;
  claimed = s.claimed + 1;
  launched = run ∷ s.launched;
}

abbrev fail : Tick → Tick
fail s = record s { failed = true }

abbrev pub at_or_zero : Option ℕ → ℕ
at_or_zero none = 0
at_or_zero (some n) = n

abbrev pub pending_at : Option PendingCheck → ℕ
pending_at none = 0
pending_at (some p) = p.at

-- `run_id` is `scheduledRunId`, a hash.
module _ (calendar : Calendar) (run_id : String → ℕ → String) where
  pub pending_round : ℕ → Job → Tick → Tick
  pending_round now job s =
      elim (claim_checked_run job.id (run_id job.id (pending_at job.pending_check)) now s.tables) [
        | err e ↦ fail s
        | ok (o, t) ↦ elim o [ none ↦ record s { tables = t } | some (run, j) ↦ launch run t s ]
      ]

  -- The jobs whose check has a result.
  pub pending_rounds : ℕ → List Job → Tick → Tick
  unfolding pending_round
  pending_rounds now [] s = s
  pending_rounds now (job ∷ jobs) s =
      let rest = pending_rounds now jobs (pending_round now job s) in
      if s.failed || s.capacity == 0 then s else rest

  abbrev pub may_start : Job → Tick → Bool
  may_start job s =
      not (member job.id s.checks)
      && is_none job.pending_check
      && not (leb max_concurrent_checks (length s.checks))

  abbrev pub started_check : Job → Bool → Tables → Tick → Tick
  started_check job true t s =
      if has_active_run job.id t
      then record s { tables = t }
      else record s { tables = t; checks = job.id ∷ s.checks; started = job ∷ s.started }
  started_check job false t s = record s { tables = t }

  pub start_check : ℕ → Job → Tick → Tick
  start_check now job s =
      if may_start job s
      then elim (next_cron_run_after calendar job.schedule (at_or_zero job.next_run_at) now) [
        | err e ↦ fail s
        | ok next ↦
            let deferred =
              defer_checked_occurrence job.id (at_or_zero job.next_run_at) next now s.tables in
            started_check job deferred.0 deferred.1 s
      ]
      else s

  abbrev pub claim_taken : Claim → Tables → Tick → Tick
  claim_taken not_due t s = record s { tables = t }
  claim_taken (claimed_run run job) t s = launch run t s
  claim_taken (skipped_run run job) t s = record s { tables = t; skipped = s.skipped + 1 }

  pub claim_round : ℕ → Job → Tick → Tick
  claim_round now job s =
      elim (next_cron_run_after calendar job.schedule (at_or_zero job.next_run_at) now) [
        | err e ↦ fail s
        | ok next ↦
            elim (claim_scheduled_run job.id (run_id job.id (at_or_zero job.next_run_at))
              (at_or_zero job.next_run_at) next now s.tables) [
                | err e ↦ fail s
                | ok (c, t) ↦ claim_taken c t s
              ]
      ]

  -- The jobs that are due, of which those with a check start it and take no room.
  pub due_rounds : ℕ → List Job → Tick → Tick
  unfolding start_check claim_round
  due_rounds now [] s = s
  due_rounds now (job ∷ jobs) s =
      let checked = due_rounds now jobs (start_check now job s) in
      let claimed = due_rounds now jobs (claim_round now job s) in
      if s.failed
      then s
      else if is_some job.check
      then checked
      else if s.capacity == 0
      then s
      else claimed

  abbrev pub pruned : Tick → Tick
  pruned s = if s.failed then s else record s { tables = (prune_runs 50 s.tables).1 }

  abbrev pub begin : ℕ → List String → Tables → Tick
  begin max_parallel checks t = record {
    tables = t;
    checks = checks;
    capacity = max_parallel - count_active_runs t;
    claimed = 0;
    skipped = 0;
    launched = [];
    started = [];
    failed = false;
  }

  -- The due jobs are listed when the results have been claimed.
  abbrev pub after_results : ℕ → Tick → Tick
  after_results now s = if s.failed then s else due_rounds now (list_due_jobs now 64 s.tables) s

  -- `tick` of a scheduler that is neither stopped nor in a tick.
  unfoldable pub tick : ℕ → ℕ → List String → Tables → Tick
  unfolding pending_rounds due_rounds
  tick max_parallel now checks t = pruned (
      after_results now
        (pending_rounds now (list_pending_check_jobs 64 t) (begin max_parallel checks t)))
