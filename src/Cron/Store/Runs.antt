-- ===== src/Cron/Store/Runs.antt =====
-- The life of a run in src/cron-store.mjs after its claim, and the removal of old runs.
use persistent_harness.Prelude.{
  ℕ, String, Bool, true, false, not, ◌&&◌, ◌||◌, Option, none, some, List, [], ◌∷◌, ◌==◌, str_eq,
  if◌then◌else◌, is_some, is_none, first, select, count, update, order_by, text_le, take, drop, ltb,
  ℕ, ok, ◌>>=◌,
}
use persistent_harness.Cron.Store.Schema.{
  ExecutionMode, Status, claimed, running, completed, failed, unknown, skipped_overlap, Fault,
  restarted, Job, Run, Tables, not_claimed, bad_terminal_state, Method, is_active, is_claimed,
  has_id, run_has_id, member, references, require, ensure, or_throw, ◌>>◌,
}
use persistent_harness.Cron.Store.Jobs.{newest_first, update_jobs}

-- `SELECT * FROM cron_runs WHERE id = ?`.
unfoldable pub get_run : Tables → String → Option Run
get_run t id = first (run_has_id id) t.runs

unfoldable pub update_runs : (Run → Bool) → (Run → Run) → Tables → Tables
update_runs p f t = record t { runs = update p f t.runs }

abbrev pub claimed_with : String → Run → Bool
claimed_with id run = run_has_id id run && is_claimed run.status

abbrev pub active_with : String → Run → Bool
active_with id run = run_has_id id run && is_active run.status

abbrev pub started_run :
    ExecutionMode → Option String → Option String → Option String → ℕ → Run → Run
started_run mode session_id fallback_reason input_id now run = record run {
  status = running;
  mode_used = some mode;
  session_id = session_id;
  fallback_reason = fallback_reason;
  input_id = input_id;
  started_at = some now;
}

unfoldable pub mark_run_running :
    String → ExecutionMode → Option String → Option String → Option String → ℕ → Method (Option Run)
unfolding update_runs update_jobs get_run
mark_run_running run_id mode session_id fallback_reason input_id now t = do
  run ← or_throw not_claimed (first (claimed_with run_id) t.runs)
  require (references t.sessions session_id)
  let t' =
      update_jobs (has_id run.job_id)
        (λ job. record job { last_status = some running; last_error = none; updated_at = now })
        (update_runs (claimed_with run_id)
          (started_run mode session_id fallback_reason input_id now) t)
  ok (get_run t' run_id, t')

-- `TERMINAL_RUN_STATES` without `skipped_overlap`.
abbrev pub may_finish : Status → Bool
may_finish completed = true
may_finish failed = true
may_finish unknown = true
may_finish skipped_overlap = false
may_finish claimed = false
may_finish running = false

abbrev pub finished_run : Status → Option String → Option Fault → ℕ → Run → Run
finished_run status output error now run = record run {
  status = status;
  output = output;
  error = error;
  completed_at = some now;
}

-- A run that is over already is returned as it is.
unfoldable pub finish_run : String → Status → Option String → Option Fault → ℕ → Method (Option Run)
unfolding update_runs update_jobs get_run
finish_run run_id status output error now t =
    ensure bad_terminal_state (may_finish status) >> elim (first (active_with run_id) t.runs) [
      | none ↦ ok (get_run t run_id, t)
      | some run ↦
          let t' =
            update_jobs (has_id run.job_id)
              (λ job. record job {
                last_status = some status;
                last_error = error;
                updated_at = now;
              })
              (update_runs (active_with run_id) (finished_run status output error now) t) in
          ok (get_run t' run_id, t')
    ]

abbrev pub active_run : Run → Bool
active_run run = is_active run.status

abbrev pub interrupted_run : ℕ → Run → Run
interrupted_run now run = record run {
  status = unknown;
  error = some restarted;
  completed_at = some now;
}

abbrev is_unknown : Status → Bool
is_unknown unknown = true
is_unknown claimed = false
is_unknown running = false
is_unknown completed = false
is_unknown failed = false
is_unknown skipped_overlap = false

abbrev time_is : ℕ → Option ℕ → Bool
time_is at none = false
time_is at (some t) = t == at

-- The jobs of `SELECT job_id FROM cron_runs WHERE status = 'unknown' AND completed_at = ?`.
abbrev became_unknown : ℕ → List Run → Job → Bool
became_unknown now runs job = is_some (
    first (λ run. str_eq run.job_id job.id && is_unknown run.status && time_is now run.completed_at)
      runs)

-- At a start, every run that was under way is closed; the runs are returned as they were.
unfoldable pub reconcile_interrupted_runs : ℕ → Tables → List Run × Tables
unfolding update_runs update_jobs
reconcile_interrupted_runs now t =
    let closed = update_runs active_run (interrupted_run now) t in
    (
      select active_run t.runs,
      update_jobs (became_unknown now closed.runs)
          (λ job. record job {
            last_status = some unknown;
            last_error = some restarted;
            updated_at = now;
          })
          closed,
    )

unfoldable list_runs : String → ℕ → Tables → List Run
list_runs job_id limit t =
    take limit (order_by newest_first (select (λ run. str_eq run.job_id job_id) t.runs))

abbrev in_session : String → Run → Bool
in_session session_id run =
    elim run.session_id [ none ↦ false | some id ↦ str_eq id session_id ] && is_active run.status

abbrev oldest_first : Run → Run → Bool
oldest_first a b =
    ltb a.claimed_at b.claimed_at || a.claimed_at == b.claimed_at && text_le a.id b.id

unfoldable list_active_runs_for_session : String → Tables → List Run
list_active_runs_for_session session_id t =
    order_by oldest_first (select (in_session session_id) t.runs)

unfoldable has_active_run_for_session : String → Tables → Bool
has_active_run_for_session session_id t = is_some (first (in_session session_id) t.runs)

distinct : List String → List String
distinct [] = []
distinct (x ∷ xs) = let rest = distinct xs in if member x rest then rest else x ∷ rest

session_ids : List Run → List String
session_ids [] = []
session_ids (run ∷ runs) =
    let rest = session_ids runs in elim run.session_id [ none ↦ rest | some id ↦ id ∷ rest ]

unfoldable active_run_session_ids : Tables → List String
unfolding distinct session_ids
active_run_session_ids t = distinct (session_ids (select active_run t.runs))

-- A run may be removed if no notification waits for it, it is over, and more than `keep` runs of its
-- job are newer.
unfoldable pub prunable : ℕ → List Run → Run → Bool
prunable keep runs run =
    (is_none run.notification_intent || run.recorded)
    && not (is_active run.status)
    && is_some (
        first (run_has_id run.id)
          (drop keep (order_by newest_first (select (λ r. str_eq r.job_id run.job_id) runs))))

abbrev pub not_prunable : ℕ → Tables → Run → Bool
not_prunable keep t run = not (prunable keep t.runs run)

unfoldable pub prune_runs : ℕ → Tables → ℕ × Tables
unfolding prunable
prune_runs keep t =
    (count (prunable keep t.runs) t.runs, record t { runs = select (not_prunable keep t) t.runs })
