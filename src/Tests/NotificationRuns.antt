-- ===== src/Tests/NotificationRuns.antt =====
-- The theorems on src/notification-store.mjs at a request that was withdrawn and one that is sent.
use persistent_harness.Prelude.{
  ℕ, ◌≤◌, ◌≡◌, refl, String, Bool, true, Option, none, some, List, [], ◌∷◌, first, length, update,
  ok,
}
use persistent_harness.Notification.Schema.{
  Notice, NoticeState, NoticeKind, Closer, Delivery, DeliveryState, Status, Tables,
}
use persistent_harness.Notification.Deliveries.{claim, update_deliveries}
use persistent_harness.Notification.Receipts.{receipt, settled_row}
use persistent_harness.Notification.Calls.{Call, reads, cancels_dialogs, claims, steps}
use persistent_harness.Notification.Settled.{StaysClosed, steps-StaysClosed}
use persistent_harness.Notification.Bounds.{length-claim, receipt_once}

abbrev question : String → NoticeState → Option Closer → Notice
question id state closed_by = record {
  id = id;
  seq = 1;
  source_key = id;
  root_id = "root";
  session_id = "root";
  episode_id = none;
  kind = NoticeKind.attention;
  title = b'T' ∷ [];
  body = b'B' ∷ [];
  created_at = 100;
  expires_at = 9000;
  state = state;
  read_at = none;
  updated_at = 100;
  closed_by = closed_by;
  source_type = "explicit";
  source_json = "";
}

abbrev sent : Delivery
sent = record {
  notification_id = "open";
  endpoint_id = "phone";
  state = DeliveryState.inflight;
  attempts = 1;
  due_at = 100;
  lease_id = some "lease";
  lease_until = some 60100;
  code = none;
  accepted_at = none;
  close_claimed_at = none;
}

abbrev withdrawn : Notice
withdrawn = question "gone" NoticeState.resolved (some Closer.agent)

abbrev two_questions : Tables
two_questions = record {
  notices = withdrawn ∷ question "open" NoticeState.pending none ∷ [];
  deliveries = sent ∷ [];
  families = [];
  next_seq = 3;
}

abbrev uuid : ℕ → String
uuid n = "u"

abbrev hash : String → String
hash key = key

abbrev any_root : String → Bool
any_root root_id = true

abbrev some_calls : List Call
some_calls = reads "gone" 200 ∷ claims uuid ("phone" ∷ "desk" ∷ []) 300 ∷ cancels_dialogs 400 ∷ []

steps-StaysClosed_example :
    StaysClosed withdrawn "gone" (steps hash any_root some_calls two_questions)
unfolding first
steps-StaysClosed_example =
    steps-StaysClosed hash any_root some_calls withdrawn "gone" two_questions refl refl

length-claim_example : length (claim uuid ("phone" ∷ "desk" ∷ []) 70000 two_questions).0 ≤ 8
length-claim_example = length-claim uuid ("phone" ∷ "desk" ∷ []) 70000 two_questions

abbrev one_accepted : Tables
one_accepted =
    update_deliveries (λ d. true) (settled_row Status.accepted DeliveryState.accepted 5200 200)
      two_questions

receipt_once_example :
    receipt "open" "phone" "lease" (some Status.retry) 300 one_accepted ≡ ok (none, one_accepted)
unfolding receipt update first
receipt_once_example =
    receipt_once "open" "phone" "lease" Status.accepted Status.retry DeliveryState.accepted 200 300
      two_questions one_accepted refl
