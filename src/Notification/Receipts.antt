-- ===== src/Notification/Receipts.antt =====
-- `receipt` of src/notification-store.mjs.
use persistent_harness.Prelude.{
  ℕ, ◌+◌, String, Bool, true, false, ◌&&◌, Option, none, some, str_eq, ltb, ◌==◌, if◌then◌else◌,
  first, Outcome, ok, err,
}
use persistent_harness.Notification.Schema.{
  DeliveryState, pending, accepted, failed, suppressed, Status, retry, gone, received, Delivery,
  Tables, NoticeError, invalid_receipt, is_inflight, delivery_is,
}
use persistent_harness.Notification.Deliveries.{update_deliveries, max_attempts}

-- `NOTIFICATION_RETRY_MS[attempts - 1] ?? 900_000`.
abbrev pub retry_delay : ℕ → ℕ
retry_delay attempts =
    if attempts == 1
    then 5000
    else if attempts == 2
    then 30000
    else if attempts == 3
    then 120000
    else if attempts == 4
    then 300000
    else 900000

abbrev lease_is : String → Option String → Bool
lease_is lease_id none = false
lease_is lease_id (some id) = str_eq id lease_id

abbrev pub leased : String → String → String → Delivery → Bool
leased id endpoint lease_id d =
    delivery_is id endpoint d && lease_is lease_id d.lease_id && is_inflight d.state

abbrev is_retry : Status → Bool
is_retry retry = true
is_retry Status.accepted = false
is_retry gone = false
is_retry Status.failed = false
is_retry Status.suppressed = false

abbrev after_status : Status → DeliveryState
after_status Status.accepted = accepted
after_status Status.suppressed = suppressed
after_status retry = failed
after_status gone = failed
after_status Status.failed = failed

abbrev pub next_state : Status → Delivery → DeliveryState
next_state status row =
    if is_retry status && ltb row.attempts max_attempts then pending else after_status status

abbrev accepted_time : Status → ℕ → Option ℕ
accepted_time Status.accepted now = some now
accepted_time retry now = none
accepted_time gone now = none
accepted_time Status.failed now = none
accepted_time Status.suppressed now = none

abbrev pub settled_row : Status → DeliveryState → ℕ → ℕ → Delivery → Delivery
settled_row status state due_at now d = record d {
  state = state;
  code = some (received status);
  due_at = due_at;
  lease_id = none;
  lease_until = none;
  accepted_at = accepted_time status now;
}

-- `receipt`: the new state, or `none` if nothing was recorded. A status that is not one of the five
-- is `none`.
unfoldable pub receipt :
    String
    → String
    → String
    → Option Status
    → ℕ
    → Tables
    → Outcome NoticeError (Option DeliveryState × Tables)
receipt id endpoint lease_id none now t = err invalid_receipt
receipt id endpoint lease_id (some status) now t =
    elim (first (leased id endpoint lease_id) t.deliveries) [
      | none ↦ ok (none, t)
      | some row ↦ ok (
        some (next_state status row),
        update_deliveries (delivery_is id endpoint)
            (settled_row status (next_state status row) (now + retry_delay row.attempts) now) t,
      )
    ]
