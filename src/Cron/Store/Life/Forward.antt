-- ===== src/Cron/Store/Life/Forward.antt =====
-- A run of src/cron-store.mjs only moves forward: claimed, running, over.
use persistent_harness.Prelude.{
  ℕ, ◌≡◌, refl, String, Bool, true, false, ◌||◌, Bool-cases, Option-cases, inl, inr, Option, none,
  some, [], ◌∷◌, arith, first, first-update, first-append, first-select, ok,
}
use persistent_harness.Cron.Store.Schema.{
  Status, claimed, running, completed, failed, unknown, skipped_overlap, ExecutionMode, Fault, Job,
  Run, Tables, is_active, run_has_id, insert_run, references, not_claimed, require, or_throw,
}
use persistent_harness.Cron.Store.Jobs.{update_jobs}
use persistent_harness.Cron.Store.Runs.{
  get_run, update_runs, claimed_with, active_with, may_finish, active_run, not_prunable, prunable,
  prune_runs, mark_run_running, finish_run, reconcile_interrupted_runs, started_run, finished_run,
  interrupted_run,
}
use persistent_harness.Cron.Store.History.{after, after-bind}
use persistent_harness.Cron.Store.Sound.{IsSound}
use persistent_harness.Cron.Store.Sound.Rules.{insert_run-inv}

abbrev same_status : Status → Status → Bool
same_status claimed claimed = true
same_status running running = true
same_status completed completed = true
same_status failed failed = true
same_status unknown unknown = true
same_status skipped_overlap skipped_overlap = true
same_status a b = false

-- A claimed run may start or end, a running one may end, and one that is over stays as it is.
abbrev may_become : Status → Status → Bool
may_become claimed s = is_active s || may_finish s
may_become running s = same_status running s || may_finish s
may_become completed s = same_status completed s
may_become failed s = same_status failed s
may_become unknown s = same_status unknown s
may_become skipped_overlap s = same_status skipped_overlap s

-- What a call may make of a run: move it forward, or remove it once it is over.
abbrev Forward : Run → Option Run → Type 0
Forward run none = is_active run.status ≡ false
Forward run (some later) = may_become run.status later.status ≡ true

abbrev pub Moves : Run → String → Tables → Type 0
Moves run id t = Forward run (get_run t id)

pub may_become_refl : (s : Status) → may_become s s ≡ true
may_become_refl claimed = refl
may_become_refl _ = refl

pruned_over :
    (keep : ℕ) (t : Tables) (run : Run)
    → not_prunable keep t run ≡ false
    → is_active run.status ≡ false
unfolding prunable
pruned_over keep t run h = ground arith

claimed_with-forward :
    (run_id : String) (r : Run) → claimed_with run_id r ≡ true → may_become r.status running ≡ true
claimed_with-forward run_id r h = ground arith

active-forward :
    (status : Status) (r : Run)
    → may_finish status ≡ true
    → is_active r.status ≡ true
    → may_become r.status status ≡ true
active-forward status r final h = ground arith

with_active : (run_id : String) (r : Run) → active_with run_id r ≡ true → is_active r.status ≡ true
with_active run_id r h = ground arith

module _ (run : Run) (id : String) (t : Tables) (found : get_run t id ≡ some run) where
  pub Moves-refl : Moves run id t
  Moves-refl = rw found (may_become_refl run.status)

  pub insert_run-Moves :
      (new : Run) (t' : Tables) → insert_run new t ≡ ok t' → get_run t' id ≡ some run
  unfolding get_run
  insert_run-Moves new t' h =
      rw ((insert_run-inv new t t' h).4) (first-append (run_has_id id) t.runs (new ∷ []) run found)

  pub update_runs-Moves :
      (p : Run → Bool) (f : Run → Run)
      → ((r : Run) → (f r).id ≡ r.id)
      → ((r : Run) → p r ≡ true → may_become r.status (f r).status ≡ true)
      → Moves run id (update_runs p f t)
  unfolding get_run update_runs
  update_runs-Moves p f keeps forward =
      rw (first-update (run_has_id id) p f t.runs (λ r. rw (keeps r)), found)
        (elim (Bool-cases (p run)) [
          | inl e ↦ rw e (forward run e)
          | inr e ↦ rw e (may_become_refl run.status)
        ])

  pub update_jobs-Moves : (p : Job → Bool) (f : Job → Job) → Moves run id (update_jobs p f t)
  unfolding get_run update_jobs
  update_jobs-Moves p f = Moves-refl

  pub prune_runs-Moves : (keep : ℕ) → IsSound t → Moves run id (prune_runs keep t).1
  unfolding get_run prune_runs prunable
  prune_runs-Moves keep s =
      rw (first-select (run_has_id id) (not_prunable keep t) t.runs run (s.run_ids id) found)
        (elim (Bool-cases (not_prunable keep t run)) [
          | inl kept ↦ rw kept (may_become_refl run.status)
          | inr cut ↦ rw cut (pruned_over keep t run cut)
        ])

  pub mark_run_running-Moves :
      (run_id : String) (mode : ExecutionMode) (session_id fallback_reason input_id : Option String)
      (now : ℕ)
      → Moves run id
          (after (mark_run_running run_id mode session_id fallback_reason input_id now t) t)
  unfolding mark_run_running get_run
  mark_run_running-Moves run_id mode session_id fallback_reason input_id now =
      after-bind (Moves run id) t (or_throw not_claimed (first (claimed_with run_id) t.runs)) _
        Moves-refl
        λ r _.
          after-bind (Moves run id) t (require (references t.sessions session_id)) _ Moves-refl
            λ _ _.
              update_runs-Moves (claimed_with run_id)
                (started_run mode session_id fallback_reason input_id now) (λ r. refl)
                (claimed_with-forward run_id)

  pub finish_run-Moves :
      (run_id : String) (status : Status) (output : Option String) (error : Option Fault) (now : ℕ)
      → Moves run id (after (finish_run run_id status output error now t) t)
  unfolding finish_run get_run
  finish_run-Moves run_id status output error now = elim (Bool-cases (may_finish status)) [
    | inr refused ↦ rw (refused, finish_run) Moves-refl
    | inl final ↦ elim (Option-cases (first (active_with run_id) t.runs)) [
      | inl e ↦ rw (final, finish_run) (rw e Moves-refl)
      | inr (r, e) ↦
          rw (final, finish_run)
            (rw e (
              update_runs-Moves (active_with run_id) (finished_run status output error now)
                (λ r. refl) (λ r h. active-forward status r final (with_active run_id r h))))
    ]
  ]

  pub reconcile-Moves : (now : ℕ) → Moves run id (reconcile_interrupted_runs now t).1
  unfolding reconcile_interrupted_runs get_run
  reconcile-Moves now =
      update_runs-Moves active_run (interrupted_run now) (λ r. refl)
        (λ r h. active-forward unknown r refl h)
