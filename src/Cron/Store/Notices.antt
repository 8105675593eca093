-- ===== src/Cron/Store/Notices.antt =====
-- What a run reports to its user, in src/cron-store.mjs.
use persistent_harness.Prelude.{
  ℕ, String, Bool, true, false, not, ◌&&◌, ◌||◌, Option, none, some, List, ◌==◌, str_eq, ltb, leb,
  is_some, is_none, select, order_by, text_le, take, length, ok, ◌>>=◌,
}
use persistent_harness.Cron.Text.{Text, trim}
use persistent_harness.Cron.Store.Schema.{
  Status, running, Intent, result, conditional, silent, Disposition, deliver, no_finding, Run,
  Tables, bad_disposition, wrong_actor, needs_deliver, different_disposition, not_evaluating,
  Method, is_active, run_has_id, ensure, or_throw, ◌>>◌,
}
use persistent_harness.Cron.Store.Runs.{get_run, update_runs}

abbrev pub is_running : Status → Bool
is_running running = true
is_running Status.claimed = false
is_running Status.completed = false
is_running Status.failed = false
is_running Status.unknown = false
is_running Status.skipped_overlap = false

-- The body is the text and its length in code units; `trimmed_empty` is `!body.trim()`.
abbrev pub valid_report : (String → Text) → Disposition → Option String → Bool
valid_report units deliver none = false
valid_report units deliver (some body) =
    ltb 0 (length (trim (units body))) && leb (length (units body)) 1000
valid_report units no_finding none = true
valid_report units no_finding (some body) = false

abbrev pub accepts : Option Intent → Bool
accepts none = false
accepts (some result) = true
accepts (some conditional) = true
accepts (some silent) = false

abbrev pub allowed_for : Option Intent → Disposition → Bool
allowed_for intent deliver = true
allowed_for none no_finding = false
allowed_for (some conditional) no_finding = true
allowed_for (some result) no_finding = false
allowed_for (some silent) no_finding = false

abbrev pub same_disposition : Disposition → Disposition → Bool
same_disposition deliver deliver = true
same_disposition deliver no_finding = false
same_disposition no_finding deliver = false
same_disposition no_finding no_finding = true

abbrev pub same_text : Option String → Option String → Bool
same_text none none = true
same_text none (some b) = false
same_text (some a) none = false
same_text (some a) (some b) = str_eq a b

abbrev pub from_session : String → Option String → Bool
from_session session_id none = false
from_session session_id (some id) = str_eq id session_id

abbrev pub unreported : String → Run → Bool
unreported run_id run = run_has_id run_id run && is_none run.disposition

abbrev pub reported_run : Disposition → Option String → ℕ → Run → Run
reported_run disposition body now run = record run {
  disposition = some disposition;
  notification_body = body;
  evaluated_at = some now;
}

-- `units` gives the UTF-16 code units of a text.
unfoldable pub report_notification :
    (String → Text) → String → String → Disposition → Option String → ℕ → Method (Option Run)
unfolding update_runs get_run
report_notification units run_id session_id disposition body now t = do
  ensure bad_disposition (valid_report units disposition body)
  run ← or_throw wrong_actor (get_run t run_id)
  ensure wrong_actor (from_session session_id run.session_id && accepts run.notification_intent)
  ensure needs_deliver (allowed_for run.notification_intent disposition)
  elim run.disposition [
    | some earlier ↦
        ensure different_disposition
          (same_disposition earlier disposition && same_text run.notification_body body)
        >> ok (some run, t)
    | none ↦
        let t' = update_runs (unreported run_id) (reported_run disposition body now) t in
        ensure not_evaluating (is_running run.status) >> ok (get_run t' run_id, t')
  ]

abbrev by_completion : Run → Run → Bool
by_completion a b = earlier a.completed_at b.completed_at
  where
    -- A null comes first.
    earlier : Option ℕ → Option ℕ → Bool
    earlier none none = text_le a.id b.id
    earlier none (some y) = true
    earlier (some x) none = false
    earlier (some x) (some y) = ltb x y || x == y && text_le a.id b.id

unfoldable pending_notifications : ℕ → Tables → List Run
pending_notifications limit t = take limit (
    order_by by_completion (
      select
        (λ run. is_some run.notification_intent && not run.recorded && not (is_active run.status))
        t.runs))

unfoldable pub notification_recorded : String → Tables → Tables
unfolding update_runs
notification_recorded run_id =
    update_runs (run_has_id run_id) (λ run. record run { recorded = true })
