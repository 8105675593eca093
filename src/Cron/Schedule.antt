-- ===== src/Cron/Schedule.antt =====
-- src/cron-schedule.mjs: a schedule is checked and given its next run. Times are milliseconds since
-- the epoch. The time zone table, the date parser and croner's evaluator are parameters.
pub mod Every
use persistent_harness.Prelude.{
  ℕ, ◌+◌, ◌-◌, ◌*◌, ◌/◌, ◌≤◌, ◌<◌, ◌≡◌, Bool, true, false, not, ◌&&◌, ◌||◌, Option, none, some,
  List, [], ◌∷◌, leb, ltb, ◌==◌, if◌then◌else◌, length, Outcome, ok, err, ◌>>=◌,
}
use persistent_harness.Cron.Text.{Text, trim, field_count, iso_offset}

pub data ScheduleError : Type 0 where
  not_an_object invalid_timezone invalid_pattern not_iso not_a_date not_in_future : ScheduleError
  invalid_interval not_five_fields no_occurrence unknown_kind stored_interval_invalid :
      ScheduleError

abbrev Checked : Type 0 → Type 0
Checked = Outcome ScheduleError

abbrev guard : Bool → ScheduleError → Checked (Unit {0})
guard true e = ok tt
guard false e = err e

infixl 5 ◌>>◌
abbrev ◌>>◌ : {A : Type 0} → Checked (Unit {0}) → Checked A → Checked A
m >> k = m >>= λ _. k

abbrev max_cron_interval_seconds : ℕ
max_cron_interval_seconds = 366 * 24 * 60 * 60

abbrev min_cron_interval_seconds : ℕ
min_cron_interval_seconds = 5 * 60

-- `normalized.schedule`, as it is stored.
pub data Schedule : Type 0 where
  at_time : Text → Text → Schedule
  every : ℕ → Text → Schedule
  cron : Text → Text → Schedule

-- A field of the request: left out (or null), of another type than the code asks for, or there.
pub data Field (A : Type 0) : Type 0 where
  absent ill_typed : Field A
  given : A → Field A

pub data Kind : Type 0 where
  at_kind every_kind cron_kind other_kind : Kind

pub record ScheduleInput : Type 0 where
  pub kind : Kind
  pub timezone : Field Text
  pub at : Field Text
  pub interval_seconds : Field ℕ
  pub expression : Field Text

pub data Display : Type 0 where
  at_display : Text → Text → Display
  every_display : ℕ → Display
  cron_display : Text → Text → Display

pub record Normalized : Type 0 where
  pub schedule : Schedule
  pub display : Display
  pub next_run_at : ℕ
  pub recurring : Bool

-- What the platform and croner give. `next_run` and `get_once` are the two evaluations of
-- `cronDate`, which throw on a bad pattern; croner's next run lies after the time it is asked for.
pub record Calendar : Type 0 where
  pub is_timezone : Text → Bool
  pub parse_date : Text → Option ℕ
  pub to_iso : ℕ → Text
  pub next_run : Text → Text → ℕ → Checked (Option ℕ)
  pub get_once : Text → Text → Checked (Option ℕ)
  pub next_run_later :
      (pattern timezone : Text) (after at : ℕ)
      → next_run pattern timezone after ≡ ok (some at)
      → after < at

module _ (calendar : Calendar) where
  open calendar use {is_timezone, parse_date, to_iso, next_run, get_once}

  abbrev or_fail : {A : Type 0} → Field A → ScheduleError → Checked A
  or_fail (given a) e = ok a
  or_fail absent e = err e
  or_fail ill_typed e = err e

  abbrev some_or : {A : Type 0} → Option A → ScheduleError → Checked A
  some_or (some a) e = ok a
  some_or none e = err e

  unfoldable pub validate_cron_timezone : Text → Checked Text
  validate_cron_timezone value = do
    guard (ltb 0 (length value) && leb (length value) 128) invalid_timezone
    guard (is_timezone value) invalid_timezone
    ok value

  -- `value.timezone ?? defaultTimezone`, then the check.
  timezone_of : Field Text → Text → Checked Text
  unfolding validate_cron_timezone
  timezone_of absent default_timezone = validate_cron_timezone default_timezone
  timezone_of ill_typed default_timezone = err invalid_timezone
  timezone_of (given value) default_timezone = validate_cron_timezone value

  abbrev local_date : Text → Text → ℕ → Bool → Checked (Option ℕ)
  local_date value timezone after allow_past_at =
      if allow_past_at then get_once value timezone else next_run value timezone after

  timestamp_of : Text → Bool → Text → ℕ → Bool → Checked ℕ
  timestamp_of value explicit_offset timezone now allow_past_at =
      if explicit_offset
      then some_or (parse_date value) not_a_date
      else local_date value timezone (now - 1) allow_past_at >>= λ at. some_or at not_a_date

  iso_at : Field Text → Text → ℕ → Bool → Checked ℕ
  unfolding timestamp_of
  iso_at field timezone now allow_past_at = do
    value ← or_fail field not_iso
    guard (leb (length value) 128) not_iso
    explicit_offset ← some_or (iso_offset value) not_iso
    timestamp ← timestamp_of value explicit_offset timezone now allow_past_at
    guard (allow_past_at || ltb now timestamp) not_in_future
    ok timestamp

  normalize_at : ScheduleInput → Text → ℕ → Bool → Checked Normalized
  unfolding iso_at
  normalize_at value timezone now allow_past_at = do
    at ← iso_at value.at timezone now allow_past_at
    ok (record {
      schedule = at_time (to_iso at) timezone;
      display = at_display (to_iso at) timezone;
      next_run_at = at;
      recurring = false;
    })

  normalize_every : ScheduleInput → Text → ℕ → ℕ → Checked Normalized
  normalize_every value timezone now min_interval_seconds = do
    interval_seconds ← or_fail value.interval_seconds invalid_interval
    guard
        (leb min_interval_seconds interval_seconds
          && leb interval_seconds max_cron_interval_seconds)
        invalid_interval
    ok (record {
      schedule = every interval_seconds timezone;
      display = every_display interval_seconds;
      next_run_at = now + interval_seconds * 1000;
      recurring = true;
    })

  normalize_cron : ScheduleInput → Text → ℕ → Checked Normalized
  normalize_cron value timezone now = do
    text ← or_fail value.expression not_five_fields
    guard (leb (length text) 256 && field_count (trim text) == 5) not_five_fields
    found ← next_run (trim text) timezone now
    next_run_at ← some_or found no_occurrence
    ok (record {
      schedule = cron (trim text) timezone;
      display = cron_display (trim text) timezone;
      next_run_at = next_run_at;
      recurring = true;
    })

  normalize_kind : Kind → ScheduleInput → Text → ℕ → Bool → ℕ → Checked Normalized
  unfolding normalize_at normalize_every normalize_cron
  normalize_kind at_kind value timezone now allow min = normalize_at value timezone now allow
  normalize_kind every_kind value timezone now allow min = normalize_every value timezone now min
  normalize_kind cron_kind value timezone now allow min = normalize_cron value timezone now
  normalize_kind other_kind value timezone now allow min = err unknown_kind

  -- `normalizeCronSchedule`; `none` is an input that is no object.
  unfoldable pub normalize_cron_schedule :
      Option ScheduleInput → ℕ → Text → Bool → ℕ → Checked Normalized
  unfolding timezone_of normalize_kind
  normalize_cron_schedule none now default_timezone allow_past_at min_interval_seconds =
      err not_an_object
  normalize_cron_schedule (some value) now default_timezone allow_past_at min_interval_seconds = do
    timezone ← timezone_of value.timezone default_timezone
    normalize_kind value.kind value timezone now allow_past_at min_interval_seconds

  -- `nextCronRunAfter`: `Math.floor(elapsed / intervalMs)` is the quotient, and `-` stops at 0 as
  -- `Math.max(0, now - scheduledAt)` does.
  unfoldable pub next_cron_run_after : Schedule → ℕ → ℕ → Checked (Option ℕ)
  next_cron_run_after (at_time at timezone) scheduled_at now = ok none
  next_cron_run_after (every interval_seconds timezone) scheduled_at now =
      let interval_ms = interval_seconds * 1000 in
      if leb interval_ms 0 || ltb 9007199254740991 interval_ms
      then err stored_interval_invalid
      else ok (some (scheduled_at + ((now - scheduled_at) / interval_ms + 1) * interval_ms))
  next_cron_run_after (cron expression timezone) scheduled_at now = do
    checked ← validate_cron_timezone timezone
    next_run expression checked (if ltb scheduled_at now then now else scheduled_at)
