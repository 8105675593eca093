-- ===== src/Cron/Schedule/Every.antt =====
-- When a schedule of src/cron-schedule.mjs runs next.
use native.Mathlib.Nat.{div-lt_iff_lt-mul}
use persistent_harness.Prelude.{
  ℕ, ◌+◌, ◌-◌, ◌*◌, ◌/◌, ◌≤◌, ◌<◌, ◌≡◌, false, some, arith, ok, >>=-inv,
}
use persistent_harness.Cron.Text.{Text}
use persistent_harness.Cron.Schedule.{
  Calendar, ScheduleInput, every, Normalized, Kind, at_kind, every_kind, cron_kind, other_kind,
  normalize_kind, timezone_of, next_cron_run_after, normalize_cron_schedule, normalize_at,
  normalize_every, normalize_cron,
}

quotient_le :
    (elapsed step k : ℕ)
    → 0 < step
    → elapsed < (k + 1) * step
    → (elapsed / step + 1) * step ≤ (k + 1) * step
quotient_le elapsed step k p h =
    let below : elapsed / step < k + 1 = (div-lt_iff_lt-mul p).1 h in grind arith

module _ (calendar : Calendar) where
  -- A stored interval of at least a second gives a next run on the grid of its occurrences, later
  -- than the one that fired and than the present.
  pub next_cron_run_after-every :
      (interval_seconds scheduled_at now : ℕ) (timezone : Text)
      → 1 ≤ interval_seconds
      → interval_seconds * 1000 ≤ 9007199254740991
      → (k : ℕ) × (next_cron_run_after calendar (every interval_seconds timezone) scheduled_at now
          ≡ ok (some (scheduled_at + (k + 1) * (interval_seconds * 1000))))
        × (now < scheduled_at + (k + 1) * (interval_seconds * 1000))
        × (scheduled_at < scheduled_at + (k + 1) * (interval_seconds * 1000))
  unfolding next_cron_run_after
  next_cron_run_after-every interval_seconds scheduled_at now timezone lo hi =
      ((now - scheduled_at) / (interval_seconds * 1000), ground arith, grind arith, grind arith)

  -- No occurrence is passed over: the next run is the first one after the present.
  pub next_cron_run_after_least :
      (interval_seconds scheduled_at now at k : ℕ) (timezone : Text)
      → next_cron_run_after calendar (every interval_seconds timezone) scheduled_at now
        ≡ ok (some at)
      → now < scheduled_at + (k + 1) * (interval_seconds * 1000)
      → at ≤ scheduled_at + (k + 1) * (interval_seconds * 1000)
  unfolding next_cron_run_after
  next_cron_run_after_least interval_seconds scheduled_at now at k timezone e h =
      ground (arith, quotient_le (now - scheduled_at) (interval_seconds * 1000) k)

  every_future :
      (value : ScheduleInput) (timezone : Text) (now min : ℕ) (n : Normalized)
      → 1 ≤ min
      → normalize_every calendar value timezone now min ≡ ok n
      → now < n.next_run_at
  unfolding normalize_every
  every_future value timezone now min n h e = ground arith

  cron_future :
      (value : ScheduleInput) (timezone : Text) (now : ℕ) (n : Normalized)
      → normalize_cron calendar value timezone now ≡ ok n
      → now < n.next_run_at
  unfolding normalize_cron
  cron_future value timezone now n e = grind (arith, calendar.next_run_later)

  at_future :
      (value : ScheduleInput) (timezone : Text) (now : ℕ) (n : Normalized)
      → normalize_at calendar value timezone now false ≡ ok n
      → now < n.next_run_at
  unfolding normalize_at
  at_future value timezone now n e = ground arith

  normalize_future :
      (kind : Kind) (value : ScheduleInput) (timezone : Text) (now min : ℕ) (n : Normalized)
      → 1 ≤ min
      → normalize_kind calendar kind value timezone now false min ≡ ok n
      → now < n.next_run_at
  unfolding normalize_kind
  normalize_future at_kind value timezone now min n h e = at_future value timezone now n e
  normalize_future every_kind value timezone now min n h e =
      every_future value timezone now min n h e
  normalize_future cron_kind value timezone now min n h e = cron_future value timezone now n e
  normalize_future other_kind value timezone now min n h e = cc

  -- A request that is accepted, and may not lie in the past, gets a next run later than now.
  pub normalize_cron_schedule_future :
      (value : ScheduleInput) (default_timezone : Text) (now min : ℕ) (n : Normalized)
      → 1 ≤ min
      → normalize_cron_schedule calendar (some value) now default_timezone false min ≡ ok n
      → now < n.next_run_at
  unfolding normalize_cron_schedule
  normalize_cron_schedule_future value default_timezone now min n h e =
      let (timezone, _, e') =
        >>=-inv (timezone_of calendar value.timezone default_timezone) _ n e in
      normalize_future value.kind value timezone now min n h e'
