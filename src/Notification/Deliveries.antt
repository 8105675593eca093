-- ===== src/Notification/Deliveries.antt =====
-- Deliveries of notices, and what `claim` does.
use persistent_harness.Prelude.{
  ℕ, ◌+◌, ◌-◌, String, Bool, false, not, ◌&&◌, ◌||◌, Option, none, some, List, [], ◌∷◌, ◌++◌,
  str_eq, ltb, leb, ◌==◌, is_some, is_none, if◌then◌else◌, first, select, update, order_by, text_le,
  take, length,
}
use persistent_harness.Notification.Schema.{
  Notice, pending, inflight, failed, expired, attempts_exhausted, Delivery, Tables, is_pending,
  is_due, is_inflight, notice_is, delivery_is,
}
use persistent_harness.Notification.Notices.{expire, get}

abbrev pub update_deliveries : (Delivery → Bool) → (Delivery → Delivery) → Tables → Tables
update_deliveries p f t = record t { deliveries = update p f t.deliveries }

-- The length of `NOTIFICATION_RETRY_MS`.
abbrev pub max_attempts : ℕ
max_attempts = 5

abbrev may_deliver : ℕ → Notice → Bool
may_deliver now n = is_pending n.state && is_none n.read_at && ltb now n.expires_at

abbrev new_delivery : String → ℕ → Notice → Delivery
new_delivery endpoint now n = record {
  notification_id = n.id;
  endpoint_id = endpoint;
  state = pending;
  attempts = 0;
  due_at = now;
  lease_id = none;
  lease_until = none;
  code = none;
  accepted_at = none;
  close_claimed_at = none;
}

-- `INSERT OR IGNORE INTO notification_deliveries … SELECT`: a row per notice, if there is none yet.
pub offer : String → ℕ → List Notice → List Delivery → List Delivery
offer endpoint now [] deliveries = deliveries
offer endpoint now (n ∷ notices) deliveries = offer endpoint now notices (
    if may_deliver now n && is_none (first (delivery_is n.id endpoint) deliveries)
    then deliveries ++ new_delivery endpoint now n ∷ []
    else deliveries)

unfoldable pub offer_all : List String → ℕ → Tables → Tables
unfolding offer
offer_all [] now t = t
offer_all (endpoint ∷ endpoints) now t =
    offer_all endpoints now (record t { deliveries = offer endpoint now t.notices t.deliveries })

-- Whether a notice of this id is closed or read.
abbrev is_settled : List Notice → String → Bool
is_settled notices id =
    is_some (first (λ n. notice_is id n && (not (is_pending n.state) || is_some n.read_at)) notices)

abbrev pub is_moot : List Notice → Delivery → Bool
is_moot notices d = (is_due d.state || is_inflight d.state) && is_settled notices d.notification_id

abbrev pub mooted : Delivery → Delivery
mooted d = record d { state = expired; lease_id = none; lease_until = none }

abbrev until_by : ℕ → Option ℕ → Bool
until_by now none = false
until_by now (some at) = leb at now

abbrev pub is_exhausted : ℕ → Delivery → Bool
is_exhausted now d =
    is_inflight d.state && until_by now d.lease_until && leb max_attempts d.attempts

abbrev pub given_up : Delivery → Delivery
given_up d = record d {
  state = failed;
  code = some attempts_exhausted;
  lease_id = none;
  lease_until = none;
}

abbrev may_claim : String → ℕ → Delivery → Bool
may_claim endpoint now d =
    str_eq d.endpoint_id endpoint
    && ltb d.attempts max_attempts
    && (is_due d.state && leb d.due_at now || is_inflight d.state && until_by now d.lease_until)

-- `ORDER BY due_at, notification_id`.
abbrev due_first : Delivery → Delivery → Bool
due_first a b =
    ltb a.due_at b.due_at || a.due_at == b.due_at && text_le a.notification_id b.notification_id

-- The rows to claim for an endpoint, after so many claims of the call.
unfoldable pub claimable : ℕ → String → ℕ → Tables → List Delivery
claimable taken endpoint now t =
    take (8 - taken) (order_by due_first (select (may_claim endpoint now) t.deliveries))

pub record Claim : Type 0 where
  pub notification : Option Notice
  pub endpoint_id : String
  pub lease_id : String
  pub attempt : ℕ

abbrev pub leased_row : String → ℕ → Delivery → Delivery
leased_row lease_id now d = record d {
  state = inflight;
  attempts = d.attempts + 1;
  lease_id = some lease_id;
  lease_until = some (now + 60000);
}

-- `uuid n` is what `randomUUID` gives for the claim after n others of the call.
module _ (uuid : ℕ → String) where
  unfoldable pub claim_rows : String → ℕ → List Delivery → List Claim → Tables → List Claim × Tables
  unfolding get
  claim_rows endpoint now [] claims t = (claims, t)
  claim_rows endpoint now (row ∷ rows) claims t =
      let lease_id = uuid (length claims) in
      let leased =
        update_deliveries (delivery_is row.notification_id endpoint) (leased_row lease_id now) t in
      let (notice, t') = get row.notification_id now leased in
      claim_rows endpoint now rows
        (claims
          ++ (record {
            notification = notice;
            endpoint_id = endpoint;
            lease_id = lease_id;
            attempt = row.attempts + 1;
          })
            ∷ [])
        t'

  unfoldable pub claim_endpoints : List String → ℕ → List Claim → Tables → List Claim × Tables
  unfolding claim_rows claimable
  claim_endpoints [] now claims t = (claims, t)
  claim_endpoints (endpoint ∷ endpoints) now claims t =
      let (claims', t') =
        claim_rows endpoint now (claimable (length claims) endpoint now t) claims t in
      let rest = claim_endpoints endpoints now claims' t' in
      if leb 8 (length claims) then (claims, t) else rest

  unfoldable pub claim : List String → ℕ → Tables → List Claim × Tables
  unfolding expire offer_all claim_endpoints
  claim endpoints now t =
      let offered = offer_all endpoints now (expire now t) in
      let kept = update_deliveries (is_moot offered.notices) mooted offered in
      claim_endpoints endpoints now [] (update_deliveries (is_exhausted now) given_up kept)
