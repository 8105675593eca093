-- ===== src/Cron/Store/Life/Ending.antt =====
-- How runs of src/cron-store.mjs end: by their outcome, which is kept, or at a restart.
use persistent_harness.Prelude.{
  ℕ, ◌≡◌, refl, ap, sym, subst, str_eq, eq_iff, Bool-cases, Option-cases, inl, inr, ◌∙◌, String,
  true, false, Option, none, some, List, [], ◌∷◌, arith, first, first-update, first-update_self,
  eq_refl, first_unique, first-sat, count, update, changed, if◌then◌else◌, ok,
}
use persistent_harness.Cron.Store.Schema.{
  Status, unknown, restarted, Fault, Job, Run, Tables, run_has_id, is_active, has_id,
}
use persistent_harness.Cron.Store.Jobs.{get_job, update_jobs, count_active_runs}
use persistent_harness.Cron.Store.Runs.{
  get_run, update_runs, active_with, active_run, may_finish, finished_run, interrupted_run,
  finish_run, reconcile_interrupted_runs,
}
use persistent_harness.Cron.Store.Sound.{IsSound}

find_active :
    (id : String) (run : Run) (t : Tables)
    → IsSound t
    → get_run t id ≡ some run
    → first (active_with id) t.runs ≡ (if is_active run.status then some run else none)
unfolding get_run
find_active id run t s found =
    first_unique (run_has_id id) (λ r. is_active r.status) t.runs run (s.run_ids id) found

-- A run that is over keeps its outcome: another `finishRun` changes nothing and returns the row.
pub finish_run-over :
    (id : String) (run : Run) (status : Status) (output : Option String) (error : Option Fault)
    (now : ℕ) (t : Tables)
    → IsSound t
    → get_run t id ≡ some run
    → is_active run.status ≡ false
    → may_finish status ≡ true
    → finish_run id status output error now t ≡ ok (some run, t)
unfolding finish_run
finish_run-over id run status output error now t s found over final =
    rw (final, finish_run) (rw (find_active id run t s found) (rw over (rw found)))

-- The row with an id after one run was ended: that of the run, or the one that was there.
first-ended :
    (id other : String) (run ended : Run) (f : Run → Run) (runs : List Run)
    → ((r : Run) → (f r).id ≡ r.id)
    → first (run_has_id id) runs ≡ some run
    → is_active run.status ≡ true
    → f run ≡ ended
    → first (run_has_id other) (update (active_with id) f runs)
      ≡ (if str_eq other id then some ended else first (run_has_id other) runs)
first-ended id other run ended f runs keep found going e =
    first-update (run_has_id other) (active_with id) f runs (λ r. ap (λ i. str_eq i other) (keep r))
    ∙ elim (Bool-cases (str_eq other id)) [
      | inl same ↦
          let at : first (run_has_id other) runs ≡ some run =
            subst (λ i. first (run_has_id i) runs ≡ some run) (sym ((eq_iff other id).0 same))
              found in
          rw (same, at) (rw (first-sat (run_has_id id) runs run found, going) (ap some e))
      | inr apart ↦ rw apart (elim (Option-cases (first (run_has_id other) runs)) [
        | inl e' ↦ rw e' refl
        | inr (r, e') ↦
            let here : str_eq r.id id ≡ false =
              subst (λ i. str_eq i id ≡ false)
                (sym ((eq_iff r.id other).0 (first-sat (run_has_id other) runs r e'))) apart in
            rw e' (rw here refl)
      ])
    ]

-- A run that is under way gets the status, the output, the error and the time of its end, and nothing
-- else of it changes; the row is returned and stored, its job shows how it ended, and every other run
-- stays as it is.
pub finish_run-active :
    (id other : String) (run : Run) (job : Job) (status : Status) (output : Option String)
    (error : Option Fault) (now : ℕ) (t : Tables)
    → IsSound t
    → get_run t id ≡ some run
    → get_job t run.job_id ≡ some job
    → is_active run.status ≡ true
    → may_finish status ≡ true
    → let ended : Run = record run {
      status = status;
      output = output;
      error = error;
      completed_at = some now;
    } in
      (t' : Tables) × (finish_run id status output error now t ≡ ok (some ended, t'))
      × (get_run t' other ≡ (if str_eq other id then some ended else get_run t other))
      × (get_job t' run.job_id
          ≡ some (record job { last_status = some status; last_error = error; updated_at = now }))
unfolding finish_run get_job
finish_run-active id other run job status output error now t s found owner going final = (
  after,
  rw (final, finish_run)
      (rw (find_active id run t s found) (rw going (ap (λ r. ok (r, after)) row))),
  others,
  shown,
)
  where
    ended : Run
    ended = record run { status = status; output = output; error = error; completed_at = some now }

    show_end : Job → Job
    show_end job = record job { last_status = some status; last_error = error; updated_at = now }

    after : Tables
    after =
        update_jobs (has_id run.job_id) show_end
          (update_runs (active_with id) (finished_run status output error now) t)

    others : get_run after other ≡ (if str_eq other id then some ended else get_run t other)
    others =
        first-ended id other run ended (finished_run status output error now) t.runs (λ r. refl)
          found going refl

    row : get_run after id ≡ some ended
    row =
        first-ended id id run ended (finished_run status output error now) t.runs (λ r. refl) found
          going refl
        ∙ rw (eq_refl id) refl

    shown : get_job after run.job_id ≡ some (show_end job)
    shown =
        first-update_self (has_id run.job_id) show_end t.jobs (λ j h. h)
        ∙ ap (changed show_end) owner

none_active :
    (now : ℕ) (runs : List Run)
    → count (λ run. is_active run.status) (update active_run (interrupted_run now) runs) ≡ 0
unfolding count update
none_active now [] = refl
none_active now (run ∷ runs) = ground (arith, none_active now runs)

-- After a restart no run is under way. A run that was has the status `unknown`, the error `restarted` and
-- the time of the restart, and nothing else of it changes; the others are untouched.
pub reconcile_interrupted_runs_lem :
    (now : ℕ) (id : String) (run : Run) (t : Tables)
    → get_run t id ≡ some run
    → (count_active_runs (reconcile_interrupted_runs now t).1 ≡ 0)
      × (get_run (reconcile_interrupted_runs now t).1 id
          ≡ some (
              if is_active run.status
              then record run { status = unknown; error = some restarted; completed_at = some now }
              else run))
unfolding reconcile_interrupted_runs count_active_runs get_run
reconcile_interrupted_runs_lem now id run t found = (
  none_active now t.runs,
  first-update (run_has_id id) active_run (interrupted_run now) t.runs (λ r. refl)
      ∙ ap (changed (λ r. if active_run r then interrupted_run now r else r)) found,
)
