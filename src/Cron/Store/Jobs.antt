-- ===== src/Cron/Store/Jobs.antt =====
-- The statements of src/cron-store.mjs on the table of jobs. SQLite's `lower` is a parameter, and so
-- is `isDeepStrictEqual`, by which a resume compares the job it expects.
use persistent_harness.Prelude.{
  ℕ, String, Bool, true, false, not, ◌&&◌, ◌||◌, Option, none, some, List, [], ◌∷◌, ◌++◌, ltb, leb,
  ◌==◌, str_eq, if◌then◌else◌, is_none, first, select, count, update, order_by, text_le, take,
  Outcome, ok, err, ◌>>=◌,
}
use persistent_harness.Cron.Schedule.{Schedule, Display}
use persistent_harness.Cron.Launch.{RawLaunch, normalize_cron_launch}
use persistent_harness.Cron.Store.Schema.{
  ExecutionMode, JobState, scheduled, paused, removed, Status, Intent, Job, Run, Tables, CronError,
  job_not_found, job_ambiguous, job_missing, not_scheduled, not_paused, job_changed, Method,
  is_removed, is_scheduled, is_paused, is_active, has_id, live_name, references, ensure, require,
  ◌>>◌, or_throw,
}

pub record NewJob : Type 0 where
  pub id : String
  pub name : String
  pub prompt : String
  pub schedule : Schedule
  pub schedule_display : Display
  pub execution_mode : ExecutionMode
  pub origin_session_id : Option String
  pub cwd : String
  pub repository_root : Option String
  pub launch : RawLaunch
  pub repeat : Option ℕ
  pub next_run_at : Option ℕ
  pub notification_intent : Option Intent
  pub check : Option String
  pub initially_paused : Bool

pub record JobChange : Type 0 where
  pub name : String
  pub prompt : String
  pub schedule : Schedule
  pub schedule_display : Display
  pub execution_mode : ExecutionMode
  pub launch : RawLaunch
  pub repeat : Option ℕ
  pub fire_count : ℕ
  pub enabled : Bool
  pub state : JobState
  pub next_run_at : Option ℕ
  pub notification_intent : Option Intent
  pub check : Option String

-- `CHECK (repeat_times IS NULL OR repeat_times > 0)`.
abbrev pub allowed_repeat : Option ℕ → Bool
allowed_repeat none = true
allowed_repeat (some n) = ltb 0 n

-- `SELECT * FROM cron_jobs WHERE id = ?`.
unfoldable pub get_job : Tables → String → Option Job
get_job t id = first (has_id id) t.jobs

-- `UPDATE cron_jobs … WHERE …` where the condition names an id, so that `result.changes` is at most 1.
unfoldable pub update_jobs : (Job → Bool) → (Job → Job) → Tables → Tables
update_jobs p f t = record t { jobs = update p f t.jobs }

-- An update that throws where it changed no row, and returns the row otherwise.
unfoldable pub change_job : (Job → Bool) → (Job → Job) → CronError → String → Method Job
unfolding update_jobs get_job
change_job p f e id t = do
  _ ← or_throw e (first p t.jobs)
  job ← or_throw e (get_job (update_jobs p f t) id)
  ok (job, update_jobs p f t)

unfoldable pub new_row : NewJob → ℕ → Job
new_row params now = record {
  id = params.id;
  name = params.name;
  prompt = params.prompt;
  schedule = params.schedule;
  schedule_display = params.schedule_display;
  execution_mode = params.execution_mode;
  origin_session_id = params.origin_session_id;
  cwd = params.cwd;
  repository_root = params.repository_root;
  launch = normalize_cron_launch params.launch;
  repeat_times = params.repeat;
  fire_count = 0;
  enabled = not params.initially_paused;
  state = if params.initially_paused then paused else scheduled;
  next_run_at = params.next_run_at;
  last_run_at = none;
  last_status = none;
  last_error = none;
  created_at = now;
  updated_at = now;
  notification_intent = params.notification_intent;
  check = params.check;
  check_failures = 0;
  check_alerted = false;
  pending_check = none;
}

pub changed_row : JobChange → ℕ → Job → Job
changed_row params now job = record job {
  name = params.name;
  prompt = params.prompt;
  schedule = params.schedule;
  schedule_display = params.schedule_display;
  execution_mode = params.execution_mode;
  launch = normalize_cron_launch params.launch;
  repeat_times = params.repeat;
  fire_count = params.fire_count;
  enabled = params.enabled;
  state = params.state;
  next_run_at = params.next_run_at;
  last_error = none;
  updated_at = now;
  notification_intent = params.notification_intent;
  check = params.check;
  check_failures = 0;
  check_alerted = false;
}

-- `WHERE id = ? AND state <> 'removed'`, and the same for the states that pause and resume leave.
abbrev pub live_job : String → Job → Bool
live_job id job = has_id id job && not (is_removed job.state)

abbrev pub scheduled_job : String → Job → Bool
scheduled_job id job = has_id id job && is_scheduled job.state

abbrev pub paused_job : String → Job → Bool
paused_job id job = has_id id job && is_paused job.state

abbrev only : List Job → Outcome CronError Job
only [] = err job_not_found
only (job ∷ []) = ok job
only (job ∷ other ∷ more) = err job_ambiguous

abbrev by_creation : Job → Job → Bool
by_creation a b = ltb a.created_at b.created_at || a.created_at == b.created_at && text_le a.id b.id

module _ (lower : String → String) where
  -- `cron_job_live_name` where the row `id` takes the name.
  abbrev pub name_is_free : String → String → List Job → Bool
  name_is_free id name jobs =
      is_none (first (λ job. not (has_id id job) && live_name lower name job) jobs)

  unfoldable pub create_job : NewJob → ℕ → Method Job
  unfolding new_row
  create_job params now t = do
    require (is_none (get_job t params.id))
    require (is_none (first (live_name lower params.name) t.jobs))
    require (references t.sessions params.origin_session_id)
    require (allowed_repeat params.repeat)
    ok (new_row params now, record t { jobs = t.jobs ++ new_row params now ∷ [] })

  unfoldable pub replace_job : String → JobChange → ℕ → Method Job
  unfolding changed_row change_job
  replace_job id params now t = do
    _ ← or_throw job_missing (first (live_job id) t.jobs)
    require (is_removed params.state || name_is_free id params.name t.jobs)
    require (allowed_repeat params.repeat)
    change_job (live_job id) (changed_row params now) job_missing id t

  -- An id goes before a name, and a name must belong to one job.
  unfoldable resolve_job : String → Bool → Tables → Outcome CronError Job
  resolve_job selector include_removed t =
      elim (first (λ job. has_id selector job && (include_removed || not (is_removed job.state)))
        t.jobs) [
          | some job ↦ ok job
          | none ↦ only (
              order_by by_creation (
                select
                  (λ job.
                    str_eq (lower job.name) (lower selector)
                    && (include_removed || not (is_removed job.state)))
                  t.jobs))
        ]

unfoldable list_jobs : Bool → Tables → List Job
list_jobs include_removed t =
    order_by by_creation (select (λ job. include_removed || not (is_removed job.state)) t.jobs)

abbrev pub paused_row : ℕ → Job → Job
paused_row now job = record job { enabled = false; state = paused; updated_at = now }

unfoldable pub pause_job : String → ℕ → Method Job
unfolding change_job
pause_job id now = change_job (scheduled_job id) (paused_row now) not_scheduled id

abbrev pub expected : (Job → Job → Bool) → Option Job → Option Job → Bool
expected deep_equal none job = true
expected deep_equal (some e) none = false
expected deep_equal (some e) (some job) = deep_equal job e

abbrev pub resumed_row : ℕ → ℕ → Job → Job
resumed_row next_run_at now job = record job {
  enabled = true;
  state = scheduled;
  next_run_at = some next_run_at;
  last_error = none;
  updated_at = now;
}

unfoldable pub resume_job : (Job → Job → Bool) → String → ℕ → ℕ → Option Job → Method Job
unfolding change_job get_job
resume_job deep_equal id next_run_at now expected_job t = do
  ensure job_changed (expected deep_equal expected_job (get_job t id))
  change_job (paused_job id) (resumed_row next_run_at now) not_paused id t

abbrev pub removed_row : ℕ → Job → Job
removed_row now job = record job {
  enabled = false;
  state = removed;
  next_run_at = none;
  updated_at = now;
}

unfoldable pub remove_job : String → ℕ → Method Job
unfolding change_job
remove_job id now = change_job (live_job id) (removed_row now) job_missing id

abbrev due_by : ℕ → Option ℕ → Bool
due_by now none = false
due_by now (some at) = leb at now

abbrev next_at : Job → ℕ
next_at job = elim job.next_run_at [ none ↦ 0 | some at ↦ at ]

abbrev by_next_run : Job → Job → Bool
by_next_run a b =
    ltb (next_at a) (next_at b)
    || next_at a == next_at b
      && (ltb a.created_at b.created_at || a.created_at == b.created_at && text_le a.id b.id)

unfoldable pub list_due_jobs : ℕ → ℕ → Tables → List Job
list_due_jobs now limit t = take limit (
    order_by by_next_run
      (select (λ job. job.enabled && is_scheduled job.state && due_by now job.next_run_at) t.jobs))

-- `inspectJob`: the job with the status of its newest run.
abbrev pub newest_first : Run → Run → Bool
newest_first a b =
    ltb b.claimed_at a.claimed_at || a.claimed_at == b.claimed_at && text_le b.id a.id

abbrev first_status : List Run → Option Status
first_status [] = none
first_status (run ∷ runs) = some run.status

unfoldable inspect_job : String → Tables → Option Job × Option Status
unfolding get_job
inspect_job id t = (
  get_job t id,
  elim (get_job t id) [
    | none ↦ none
    | some job ↦
        first_status (order_by newest_first (select (λ run. str_eq run.job_id job.id) t.runs))
  ],
)

unfoldable pub count_active_runs : Tables → ℕ
count_active_runs t = count (λ run. is_active run.status) t.runs
