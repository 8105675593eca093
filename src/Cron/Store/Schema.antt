-- ===== src/Cron/Store/Schema.antt =====
-- The columns of the cron tables and the constraints of `CRON_SCHEMA` (src/cron-store.mjs).
use persistent_harness.Prelude.{
  ℕ, String, Bool, true, false, not, ◌&&◌, ◌||◌, Option, none, some, List, [], ◌∷◌, ◌++◌, ◌==◌,
  str_eq, is_some, is_none, first, Outcome, ok, err, ◌>>=◌,
}
use persistent_harness.Cron.Schedule.{Schedule, Display}
use persistent_harness.Cron.Launch.{Launch}

pub data ExecutionMode : Type 0 where
  new_session origin_session : ExecutionMode

pub data JobState : Type 0 where
  scheduled paused completed removed : JobState

pub data Status : Type 0 where
  claimed running completed failed unknown skipped_overlap : Status

pub data Source : Type 0 where
  by_schedule by_hand : Source

pub data Intent : Type 0 where
  result conditional silent : Intent

pub data Disposition : Type 0 where
  deliver no_finding : Disposition

pub data CheckKind : Type 0 where
  output failure : CheckKind

-- What a check produced; `at` is the occurrence that it was made for.
pub record CheckResult : Type 0 where
  pub kind : CheckKind
  pub text : String

pub record PendingCheck : Type 0 where
  pub result : CheckResult
  pub at : ℕ

-- Why a job or a run failed last. The texts of the code are these with their parts filled in.
pub data Fault : Type 0 where
  overlap_with : String → Fault
  restarted : Fault
  check_failed : String → Fault
  reported : String → Fault

pub record Job : Type 0 where
  pub id : String
  pub name : String
  pub prompt : String
  pub schedule : Schedule
  pub schedule_display : Display
  pub execution_mode : ExecutionMode
  pub origin_session_id : Option String
  pub cwd : String
  pub repository_root : Option String
  pub launch : Launch
  pub repeat_times : Option ℕ
  pub fire_count : ℕ
  pub enabled : Bool
  pub state : JobState
  pub next_run_at : Option ℕ
  pub last_run_at : Option ℕ
  pub last_status : Option Status
  pub last_error : Option Fault
  pub created_at : ℕ
  pub updated_at : ℕ
  pub notification_intent : Option Intent
  pub check : Option String
  pub check_failures : ℕ
  pub check_alerted : Bool
  pub pending_check : Option PendingCheck

pub record Run : Type 0 where
  pub id : String
  pub job_id : String
  pub source : Source
  pub scheduled_at : ℕ
  pub status : Status
  pub mode_requested : ExecutionMode
  pub mode_used : Option ExecutionMode
  pub session_id : Option String
  pub fallback_reason : Option String
  pub input_id : Option String
  pub output : Option String
  pub error : Option Fault
  pub claimed_at : ℕ
  pub started_at : Option ℕ
  pub completed_at : Option ℕ
  pub notification_intent : Option Intent
  pub disposition : Option Disposition
  pub notification_body : Option String
  pub evaluated_at : Option ℕ
  pub recorded : Bool
  pub check : Option CheckResult

-- `sessions` holds the ids of the session table that the foreign keys refer to.
pub record Tables : Type 0 where
  pub jobs : List Job
  pub runs : List Run
  pub sessions : List String

pub data CronError : Type 0 where
  constraint_failed job_not_found job_ambiguous job_missing not_scheduled not_paused : CronError
  job_changed already_running not_claimed bad_terminal_state bad_disposition : CronError
  wrong_actor needs_deliver different_disposition not_evaluating : CronError

abbrev pub Method : Type 0 → Type 0
Method A = Tables → Outcome CronError (A × Tables)

abbrev pub is_removed : JobState → Bool
is_removed removed = true
is_removed scheduled = false
is_removed paused = false
is_removed completed = false

abbrev pub is_scheduled : JobState → Bool
is_scheduled scheduled = true
is_scheduled paused = false
is_scheduled completed = false
is_scheduled removed = false

abbrev pub is_paused : JobState → Bool
is_paused paused = true
is_paused scheduled = false
is_paused completed = false
is_paused removed = false

-- `status IN ('claimed', 'running')`.
abbrev pub is_active : Status → Bool
is_active claimed = true
is_active running = true
is_active Status.completed = false
is_active failed = false
is_active unknown = false
is_active skipped_overlap = false

abbrev pub is_claimed : Status → Bool
is_claimed claimed = true
is_claimed running = false
is_claimed Status.completed = false
is_claimed failed = false
is_claimed unknown = false
is_claimed skipped_overlap = false

abbrev pub is_by_schedule : Source → Bool
is_by_schedule by_schedule = true
is_by_schedule by_hand = false

-- Row conditions.
abbrev pub has_id : String → Job → Bool
has_id id job = str_eq job.id id

abbrev pub run_has_id : String → Run → Bool
run_has_id id run = str_eq run.id id

abbrev pub active_for : String → Run → Bool
active_for job_id run = str_eq run.job_id job_id && is_active run.status

abbrev pub occurrence_of : String → ℕ → Run → Bool
occurrence_of job_id at run =
    is_by_schedule run.source && str_eq run.job_id job_id && run.scheduled_at == at

abbrev pub live_name : (String → String) → String → Job → Bool
live_name lower name job = not (is_removed job.state) && str_eq (lower job.name) (lower name)

unfoldable pub member : String → List String → Bool
member x [] = false
member x (y ∷ ys) = str_eq y x || member x ys

abbrev pub references : List String → Option String → Bool
references sessions none = true
references sessions (some id) = member id sessions

abbrev pub ensure : CronError → Bool → Outcome CronError (Unit {0})
ensure e true = ok tt
ensure e false = err e

abbrev pub require : Bool → Outcome CronError (Unit {0})
require b = ensure constraint_failed b

infixl 5 ◌>>◌
abbrev pub ◌>>◌ :
    {A : Type 0} → Outcome CronError (Unit {0}) → Outcome CronError A → Outcome CronError A
m >> k = m >>= λ _. k

abbrev pub or_throw : {A : Type 0} → CronError → Option A → Outcome CronError A
or_throw e none = err e
or_throw e (some a) = ok a

-- `INSERT INTO cron_runs`: the primary key, the two foreign keys, `cron_scheduled_occurrence` and
-- `cron_one_active_run`.
unfoldable pub insert_run : Run → Tables → Outcome CronError Tables
insert_run run t = do
  require (is_none (first (run_has_id run.id) t.runs))
  require (is_some (first (has_id run.job_id) t.jobs))
  require (references t.sessions run.session_id)
  require (
      not (is_by_schedule run.source)
      || is_none (first (occurrence_of run.job_id run.scheduled_at) t.runs))
  require (not (is_active run.status) || is_none (first (active_for run.job_id) t.runs))
  ok (record t { runs = t.runs ++ run ∷ [] })
