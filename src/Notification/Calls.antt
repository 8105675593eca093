-- ===== src/Notification/Calls.antt =====
-- The methods of `NotificationStore` (src/notification-store.mjs) that change notices and
-- deliveries, `observe` aside, as calls, and a sequence of them.
use persistent_harness.Prelude.{ℕ, String, Bool, Option, List, [], ◌∷◌, Outcome, ok, err}
use persistent_harness.Cron.Text.{Text}
use persistent_harness.Notification.Schema.{NoticeState, Closer, Status, Tables, NoticeError}
use persistent_harness.Notification.Notices.{
  NewNotice, View, get, create, request, transition, resolve_key, read, cancel_session,
  cancel_dialogs, list_notices,
}
use persistent_harness.Notification.Deliveries.{claim}
use persistent_harness.Notification.Closures.{claim_closures}
use persistent_harness.Notification.Receipts.{receipt}

-- The last number of a call is its time; a claim comes with the ids that `randomUUID` gives to it.
pub data Call : Type 0 where
  creates : NewNotice → ℕ → Call
  requests : String → String → Text → Text → ℕ → String → ℕ → Call
  resolves : String → String → ℕ → Call
  gets : String → ℕ → Call
  lists : ℕ → ℕ → View → ℕ → Call
  reads : String → ℕ → Call
  closes : String → NoticeState → Option Closer → ℕ → Call
  cancels_session : String → ℕ → Call
  cancels_dialogs : ℕ → Call
  claims : (ℕ → String) → List String → ℕ → Call
  claims_closures : List String → ℕ → Call
  receives : String → String → String → Option Status → ℕ → Call

-- A call that throws leaves the tables as they were.
abbrev pub after : {A : Type 0} → Outcome NoticeError (A × Tables) → Tables → Tables
after (ok (a, t')) t = t'
after (err e) t = t

module _ (notification_id : String → String) (notifies_root : String → Bool) where
  unfoldable pub step : Call → Tables → Tables
  step (creates p now) t = (create notification_id notifies_root p now t).1
  step (requests session_id key title body expires_in source now) t =
      (request notification_id notifies_root session_id key title body expires_in source now t).1
  step (resolves session_id key now) t =
      after (resolve_key notification_id notifies_root session_id key now t) t
  step (gets id now) t = (get id now t).1
  step (lists limit before view now) t = (list_notices limit before view now t).1
  step (reads id now) t = (read id now t).1
  step (closes id state closed_by now) t = after (transition id state now closed_by t) t
  step (cancels_session id now) t = cancel_session id now t
  step (cancels_dialogs now) t = cancel_dialogs now t
  step (claims uuid endpoints now) t = (claim uuid endpoints now t).1
  step (claims_closures endpoints now) t = (claim_closures endpoints now t).1
  step (receives id endpoint lease_id status now) t =
      after (receipt id endpoint lease_id status now t) t

  unfoldable pub steps : List Call → Tables → Tables
  steps [] t = t
  steps (call ∷ calls) t = steps calls (step call t)
