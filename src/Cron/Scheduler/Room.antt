-- ===== src/Cron/Scheduler/Room.antt =====
-- What the calls of src/cron-store.mjs that the scheduler makes do to the number of active runs.
use persistent_harness.Prelude.{
  ℕ, ◌+◌, ◌≤◌, ◌≡◌, ap, ◌∙◌, subst, arith, String, Bool, Option, none, some, [], ◌∷◌, if◌then◌else◌,
  is_some, first, count, count-append, inl, inr, Bool-cases, Option-cases, Outcome, ok, >>=-elim,
  ok_inj, ◌>>=◌,
}
use persistent_harness.Cron.Store.Schema.{
  Job, Run, Tables, CronError, PendingCheck, is_active, has_id, active_for, insert_run,
}
use persistent_harness.Cron.Store.Jobs.{get_job, update_jobs, count_active_runs}
use persistent_harness.Cron.Store.Claims.{
  Claim, not_due, claimed_run, skipped_run, claim_result, due_at, scheduled_run, fired_job,
  claim_due, claim_scheduled_run, defers_now, deferred_row, defer_checked_occurrence, awaiting,
  checked_run, checked_job, claim_checked_run,
}
use persistent_harness.Cron.Store.Sound.Rules.{insert_run-inv}

abbrev pub active : Run → Bool
active run = is_active run.status

count-insert_run :
    (run : Run) (t t' : Tables)
    → insert_run run t ≡ ok t'
    → count_active_runs t' ≡ count_active_runs t + (if is_active run.status then 1 else 0)
unfolding count_active_runs count
count-insert_run run t t' h =
    let (_, _, _, _, e) = insert_run-inv run t t' h in
    rw e (count-append active t.runs (run ∷ []) ∙ ap (λ n. count active t.runs + n) (one run))
  where
    one : (run : Run) → count active (run ∷ []) ≡ (if is_active run.status then 1 else 0)
    one run = ground arith

-- The runs do not change where jobs do.
count_after :
    (t : Tables) (p : Job → Bool) (f : Job → Job) (n : ℕ)
    → count_active_runs t ≤ n
    → count_active_runs (update_jobs p f t) ≤ n
unfolding update_jobs count_active_runs
count_after t p f n h = h

pub defer-count :
    (job_id : String) (at : ℕ) (next : Option ℕ) (now : ℕ) (t : Tables)
    → count_active_runs (defer_checked_occurrence job_id at next now t).1 ≤ count_active_runs t
unfolding defer_checked_occurrence
defer-count job_id at next now t =
    count_after t (defers_now job_id at) (deferred_row next now) (count_active_runs t) (omega arith)

-- What a claim takes of the room.
abbrev pub room_of : Claim → ℕ
room_of not_due = 0
room_of (claimed_run run job) = 1
room_of (skipped_run run job) = 0

claim_due-room :
    (run_id : String) (at : ℕ) (next : Option ℕ) (now : ℕ) (job : Job) (t t' : Tables) (c : Claim)
    → claim_due run_id at next now job t ≡ ok (c, t')
    → count_active_runs t' ≤ count_active_runs t + room_of c
unfolding claim_due update_jobs count_active_runs scheduled_run
claim_due-room run_id at next now job t t' c h =
    let active_one = first (active_for job.id) t.runs in
    >>=-elim (insert_run (scheduled_run run_id job at active_one now) t) _ (c, t') h
      λ t1 e h1.
        let counted = count-insert_run (scheduled_run run_id job at active_one now) t t1 e in
        subst (λ x. count_active_runs x.1 ≤ count_active_runs t + room_of x.0) (ok_inj h1)
          (room (first (active_for job.id) t.runs) (count_active_runs t1) counted)
  where
    room :
        (o : Option Run) (n : ℕ)
        → n
          ≡ count_active_runs t
            + (if is_active (scheduled_run run_id job at o now).status then 1 else 0)
        → n
          ≤ count_active_runs t
            + room_of
                (claim_result o (scheduled_run run_id job at o now) (fired_job at next o now job))
    room none n e = omega arith
    room (some r) n e = omega arith

pub claim_scheduled_run-room :
    (job_id run_id : String) (at : ℕ) (next : Option ℕ) (now : ℕ) (t t' : Tables) (c : Claim)
    → claim_scheduled_run job_id run_id at next now t ≡ ok (c, t')
    → count_active_runs t' ≤ count_active_runs t + room_of c
unfolding claim_scheduled_run
claim_scheduled_run-room job_id run_id at next now t t' c h =
    elim (Option-cases (get_job t job_id)) [
      | inl e ↦ idle (rw (e, claim_scheduled_run) at h)
      | inr (job, e) ↦ elim (Bool-cases (due_at at job)) [
        | inl due ↦
            claim_due-room run_id at next now job t t' c (rw (e, due, claim_scheduled_run) at h)
        | inr early ↦ idle (rw (e, early, claim_scheduled_run) at h)
      ]
    ]
  where
    idle :
        ◌≡◌ {A = Outcome CronError (Claim × Tables)} (ok (not_due, t)) (ok (c, t'))
        → count_active_runs t' ≤ count_active_runs t + room_of c
    idle e =
        subst (λ x. count_active_runs x.1 ≤ count_active_runs t + room_of x.0) (ok_inj e)
          (omega arith)

abbrev room_for : Option (Run × Job) → ℕ
room_for none = 0
room_for (some x) = 1

pub claim_checked_run-room :
    (job_id run_id : String) (now : ℕ) (t t' : Tables) (o : Option (Run × Job))
    → claim_checked_run job_id run_id now t ≡ ok (o, t')
    → count_active_runs t' ≤ count_active_runs t + room_for o
unfolding claim_checked_run
claim_checked_run-room job_id run_id now t t' o h =
    elim (Option-cases (first (awaiting job_id) t.jobs)) [
      | inl e ↦ idle (rw (e, claim_checked_run) at h)
      | inr (job, e) ↦ elim (Bool-cases (is_some (first (active_for job_id) t.runs))) [
        | inl busy ↦ idle (rw (e, busy, claim_checked_run) at h)
        | inr free ↦ elim (Option-cases job.pending_check) [
          | inl none_waits ↦ idle (rw (e, free, none_waits, claim_checked_run) at h)
          | inr (p, waits) ↦ taken job p (rw (e, free, waits, claim_checked_run) at h)
        ]
      ]
    ]
  where
    idle :
        ◌≡◌ {A = Outcome CronError (Option (Run × Job) × Tables)} (ok (none, t)) (ok (o, t'))
        → count_active_runs t' ≤ count_active_runs t + room_for o
    idle e =
        subst (λ x. count_active_runs x.1 ≤ count_active_runs t + room_for x.0) (ok_inj e)
          (omega arith)

    taken :
        (job : Job) (p : PendingCheck)
        → ◌≡◌ {A = Outcome CronError (Option (Run × Job) × Tables)}
            (insert_run (checked_run run_id job p now) t >>= λ t1. ok (
              some (checked_run run_id job p now, checked_job p now job),
              update_jobs (has_id job_id) (checked_job p now) t1,
            ))
            (ok (o, t'))
        → count_active_runs t' ≤ count_active_runs t + room_for o
    taken job p h =
        >>=-elim (insert_run (checked_run run_id job p now) t) _ (o, t') h
          λ t1 e h1.
            let counted = count-insert_run (checked_run run_id job p now) t t1 e in
            subst (λ x. count_active_runs x.1 ≤ count_active_runs t + room_for x.0) (ok_inj h1)
              (count_after t1 (has_id job_id) (checked_job p now) (count_active_runs t + 1)
                (omega arith))
