-- ===== src/Tests/CronRuns.antt =====
-- Runs of the cron code (src/cron-schedule.mjs, src/cron-launch.mjs, src/cron-store.mjs).
use persistent_harness.Prelude.{
  ℕ, ◌+◌, ◌*◌, ◌≤◌, ◌<◌, ◌≡◌, refl, String, Bool, true, false, Option, none, some, List, [], ◌∷◌,
  arith, first, update, Outcome, ok,
}
use persistent_harness.Cron.Text.{Text}
use persistent_harness.Cron.Schedule.{
  Calendar, ScheduleError, every, every_display, ScheduleInput, every_kind, absent, given,
  Normalized, normalize_cron_schedule, next_cron_run_after,
}
use persistent_harness.Cron.Schedule.Every.{
  next_cron_run_after-every, next_cron_run_after_least, normalize_cron_schedule_future,
}
use persistent_harness.Cron.Launch.{
  Launch, RawLaunch, ModelPolicy, ThinkingPolicy, Patch, settings_thinking, explicit_model,
  normalize_cron_launch, raw_launch, merge_cron_launch, normalize_cron_launch_idem,
  merge_cron_launch_lem,
}
use persistent_harness.Cron.Store.Schema.{
  Job, Run, Tables, completed, failed, unknown, reported, restarted, new_session, member,
}
use persistent_harness.Cron.Store.Jobs.{NewJob, new_row, create_job, get_job, count_active_runs}
use persistent_harness.Cron.Store.Claims.{
  not_due, claimed_run, claim_scheduled_run, scheduled_run, fired_job,
}
use persistent_harness.Cron.Store.Runs.{
  get_run, finish_run, reconcile_interrupted_runs, finished_run,
}
use persistent_harness.Cron.Store.History.{
  Call, creates, claims_scheduled, finishes, step, steps, empty,
}
use persistent_harness.Cron.Store.Sound.{IsSound}
use persistent_harness.Cron.Store.Sound.History.{steps-empty-IsSound}
use persistent_harness.Cron.Store.Life.Claiming.{IsClaimed, claim_scheduled_run-due}
use persistent_harness.Cron.Store.Life.Alerts.{wakes, wakes_once}
use persistent_harness.Cron.Store.Life.Forward.{Moves}
use persistent_harness.Cron.Store.Life.EveryCall.{step-Moves}
use persistent_harness.Cron.Store.Life.Ending.{
  finish_run-over, finish_run-active, reconcile_interrupted_runs_lem,
}

-- A calendar with one time zone and no local dates.
abbrev utc : Text
utc = b'U' ∷ b'T' ∷ b'C' ∷ []

pub never :
    (pattern timezone : Text) (after at : ℕ)
    → ◌≡◌ {A = Outcome ScheduleError (Option ℕ)} (ok none) (ok (some at))
    → after < at
never pattern timezone after at h = cc

abbrev pub bare_calendar : Calendar
bare_calendar = record {
  is_timezone = λ t. true;
  parse_date = λ t. none;
  to_iso = λ n. [];
  next_run = λ p t n. ok none;
  get_once = λ p t. ok none;
  next_run_later = never;
}

next_cron_run_after-every_example :
    (k : ℕ) × (next_cron_run_after bare_calendar (every 300 utc) 1000 5000
      ≡ ok (some (1000 + (k + 1) * (300 * 1000))))
    × (5000 < 1000 + (k + 1) * (300 * 1000))
    × (1000 < 1000 + (k + 1) * (300 * 1000))
next_cron_run_after-every_example =
    next_cron_run_after-every bare_calendar 300 1000 5000 utc (omega arith) (omega arith)

next_cron_run_after_least_example : 301000 ≤ 1000 + (1 + 1) * (300 * 1000)
unfolding next_cron_run_after
next_cron_run_after_least_example =
    next_cron_run_after_least bare_calendar 300 1000 5000 301000 1 utc refl (omega arith)

abbrev five_minutes : ScheduleInput
five_minutes = record {
  kind = every_kind;
  timezone = absent;
  at = absent;
  interval_seconds = given 300;
  expression = absent;
}

abbrev every_five : Normalized
every_five = record {
  schedule = every 300 utc;
  display = every_display 300;
  next_run_at = 305000;
  recurring = true;
}

normalize_cron_schedule_future_example : 5000 < 305000
unfolding normalize_cron_schedule
normalize_cron_schedule_future_example =
    normalize_cron_schedule_future bare_calendar five_minutes utc 5000 300 every_five (omega arith)
      refl

abbrev pinned : RawLaunch
pinned = record {
  model = record { source = some "explicit"; requested = none; provider = some "p"; id = some "m" };
  thinking = record { source = none; requested = none; resolved = none };
}

normalize_cron_launch_idem_example :
    normalize_cron_launch (raw_launch (normalize_cron_launch pinned)) ≡ normalize_cron_launch pinned
normalize_cron_launch_idem_example = normalize_cron_launch_idem pinned

abbrev stored_launch : Launch
stored_launch = record { model = explicit_model "p/m" "p" "m"; thinking = settings_thinking }

merge_cron_launch_lem_example :
    merge_cron_launch stored_launch Patch.clear Patch.keep (Patch.put "high") ≡ record {
      model = ModelPolicy.settings_model;
      thinking = ThinkingPolicy.explicit_thinking "high" "high";
    }
merge_cron_launch_lem_example =
    merge_cron_launch_lem stored_launch Patch.clear Patch.keep (Patch.put "high")

abbrev nightly : NewJob
nightly = record {
  id = "j";
  name = "nightly";
  prompt = "tidy";
  schedule = every 300 utc;
  schedule_display = every_display 300;
  execution_mode = new_session;
  origin_session_id = some "root";
  cwd = "/";
  repository_root = none;
  launch = pinned;
  repeat = none;
  next_run_at = some 1000;
  notification_intent = none;
  check = none;
  initially_paused = false;
}

abbrev pub same_name : String → String
same_name s = s

abbrev pub never_equal : Job → Job → Bool
never_equal a b = false

abbrev pub no_units : String → Text
no_units s = []

abbrev pub run_calls : List Call → Tables
run_calls calls = steps same_name never_equal no_units calls (empty ("root" ∷ []))

abbrev pub one_job : List Call
one_job = creates nightly 0 ∷ []

abbrev one_run : List Call
one_run = creates nightly 0 ∷ claims_scheduled "j" "r" 1000 (some 2000) 1500 ∷ []

abbrev one_done : List Call
one_done =
    creates nightly 0
    ∷ claims_scheduled "j" "r" 1000 (some 2000) 1500
    ∷ finishes "r" completed (some "ok") none 1700
    ∷ []

steps-empty-IsSound_example : IsSound (run_calls one_run)
steps-empty-IsSound_example =
    steps-empty-IsSound same_name never_equal no_units one_run ("root" ∷ []) (tt, (tt, tt))

one_run-IsSound : IsSound (run_calls one_run)
one_run-IsSound =
    steps-empty-IsSound same_name never_equal no_units one_run ("root" ∷ []) (tt, (tt, tt))

abbrev nightly_row : Job
nightly_row = new_row nightly 0

abbrev claimed_row : Run
claimed_row = scheduled_run "r" nightly_row 1000 none 1500

found_job : get_job (run_calls one_job) "j" ≡ some nightly_row
unfolding get_job steps step new_row first create_job member
found_job = refl

found_run : get_run (run_calls one_run) "r" ≡ some claimed_row
unfolding get_run steps step new_row scheduled_run first create_job claim_scheduled_run member
found_run = refl

later_run : (n : ℕ) → some 2000 ≡ some n → 1000 < n
later_run n h = ground arith

claim_scheduled_run-due_example :
    (run : Run) × (fired : Job) × (t' : Tables) × (claim_scheduled_run "j" "r" 1000
        (some 2000)
        1500
        (run_calls one_job)
      ≡ ok (claimed_run run fired, t'))
    × IsClaimed "r" 1000 1500 false (some 2000) nightly_row run fired t'
    × (claim_scheduled_run "j" "s" 1000 (some 2000) 1600 t' ≡ ok (not_due, t'))
unfolding new_row first steps step create_job get_job member
claim_scheduled_run-due_example =
    claim_scheduled_run-due "r" "s" 1000 (some 2000) 1500 1600 nightly_row (run_calls one_job)
      found_job refl refl refl later_run

step-Moves_example :
    Moves claimed_row "r"
      (step same_name never_equal no_units (finishes "r" failed none none 1800) (run_calls one_run))
step-Moves_example =
    step-Moves same_name never_equal no_units (finishes "r" failed none none 1800) claimed_row "r"
      (run_calls one_run) one_run-IsSound found_run

abbrev fired_row : Job
fired_row = fired_job 1000 (some 2000) none 1500 nightly_row

found_fired : get_job (run_calls one_run) "j" ≡ some fired_row
unfolding get_job first steps step claim_scheduled_run create_job member update
found_fired = refl

abbrev failed_row : Run
failed_row = record claimed_row {
  status = failed;
  output = none;
  error = some (reported "no session");
  completed_at = some 1800;
}

finish_run-active_example :
    (t' : Tables) × (finish_run "r" failed none
        (some (reported "no session"))
        1800
        (run_calls one_run)
      ≡ ok (some failed_row, t'))
    × (get_run t' "q" ≡ get_run (run_calls one_run) "q")
    × (get_job t' "j"
        ≡ some (record fired_row {
          last_status = some failed;
          last_error = some (reported "no session");
          updated_at = 1800;
        }))
unfolding scheduled_run new_row
finish_run-active_example =
    finish_run-active "r" "q" claimed_row fired_row failed none (some (reported "no session")) 1800
      (run_calls one_run) one_run-IsSound found_run found_fired refl refl

abbrev done_row : Run
done_row = finished_run completed (some "ok") none 1700 claimed_row

one_done-IsSound : IsSound (run_calls one_done)
one_done-IsSound =
    steps-empty-IsSound same_name never_equal no_units one_done ("root" ∷ []) (tt, (tt, (tt, tt)))

finish_run-over_example :
    finish_run "r" failed none none 1800 (run_calls one_done)
    ≡ ok (some done_row, run_calls one_done)
unfolding get_run steps step new_row scheduled_run first update create_job claim_scheduled_run
    finish_run member
finish_run-over_example =
    finish_run-over "r" done_row failed none none 1800 (run_calls one_done) one_done-IsSound refl
      refl refl

reconcile_interrupted_runs_lem_example :
    (count_active_runs (reconcile_interrupted_runs 1800 (run_calls one_run)).1 ≡ 0)
    × (get_run (reconcile_interrupted_runs 1800 (run_calls one_run)).1 "r"
        ≡ some (record claimed_row {
          status = unknown;
          error = some restarted;
          completed_at = some 1800;
        }))
unfolding scheduled_run
reconcile_interrupted_runs_lem_example =
    reconcile_interrupted_runs_lem 1800 "r" claimed_row (run_calls one_run) found_run

wakes_once_example : wakes 4 "j" "exit 1" 3 2000 (run_calls one_job) ≡ 1
unfolding new_row
wakes_once_example = wakes_once 4 "j" "exit 1" 3 2000 nightly_row (run_calls one_job) found_job refl
