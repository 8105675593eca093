-- ===== src/Tests/SchedulerRuns.antt =====
-- A tick of src/cron-scheduler.mjs with one job that is due.
use persistent_harness.Prelude.{
  All, ℕ, ◌+◌, ◌-◌, ◌≤◌, ◌≡◌, refl, String, List, [], ◌∷◌, arith, length,
}
use persistent_harness.Cron.Store.Jobs.{count_active_runs}
use persistent_harness.Cron.Scheduler.{Tick, tick}
use persistent_harness.Cron.Scheduler.Capacity.{tick-capacity}
use persistent_harness.Tests.CronRuns.{bare_calendar, run_calls, one_job}
use persistent_harness.Cron.Scheduler.Taken.{IsLaunched}
use persistent_harness.Cron.Scheduler.Launched.{tick-IsLaunched}

abbrev run_id : String → ℕ → String
run_id job at = "r"

abbrev ticked : Tick
ticked = tick bare_calendar run_id 2 1500 [] (run_calls one_job)

launched_run : length ticked.launched ≡ 1
unfolding tick persistent_harness.Cron.Store.Claims.list_pending_check_jobs
    persistent_harness.Prelude.order_by persistent_harness.Prelude.select
    persistent_harness.Cron.Store.History.steps persistent_harness.Cron.Store.History.step
    persistent_harness.Cron.Store.Jobs.create_job persistent_harness.Cron.Store.Jobs.get_job
    persistent_harness.Prelude.first persistent_harness.Cron.Store.Schema.member
    persistent_harness.Cron.Store.Jobs.list_due_jobs count_active_runs
    persistent_harness.Prelude.count persistent_harness.Cron.Schedule.next_cron_run_after
    persistent_harness.Cron.Store.Claims.claim_scheduled_run
launched_run = refl

claimed_run : ticked.capacity ≡ 1
unfolding tick persistent_harness.Cron.Store.Claims.list_pending_check_jobs
    persistent_harness.Prelude.order_by persistent_harness.Prelude.select
    persistent_harness.Cron.Store.History.steps persistent_harness.Cron.Store.History.step
    persistent_harness.Cron.Store.Jobs.create_job persistent_harness.Cron.Store.Jobs.get_job
    persistent_harness.Prelude.first persistent_harness.Cron.Store.Schema.member
    persistent_harness.Cron.Store.Jobs.list_due_jobs count_active_runs
    persistent_harness.Prelude.count persistent_harness.Cron.Schedule.next_cron_run_after
    persistent_harness.Cron.Store.Claims.claim_scheduled_run
claimed_run = refl

tick-capacity_example :
    (count_active_runs ticked.tables
      ≤ count_active_runs (run_calls one_job) + (2 - count_active_runs (run_calls one_job)))
    × (length ticked.launched ≤ 2 - count_active_runs (run_calls one_job))
    × (length ticked.checks ≤ 4)
tick-capacity_example =
    tick-capacity bare_calendar run_id 2 1500 4 [] (run_calls one_job) (omega arith) (omega arith)

tick-IsLaunched_example : All (IsLaunched run_id 1500) ticked.launched
tick-IsLaunched_example = tick-IsLaunched bare_calendar run_id 2 1500 [] (run_calls one_job)
