-- ===== src/Notification/Bounds.antt =====
-- How much a call of src/notification-store.mjs hands out, and that a lease is used up by a receipt.
use persistent_harness.Prelude.{
  none≢some, ℕ, ◌+◌, ◌-◌, ◌≤◌, ◌≡◌, refl, String, false, Bool-cases, Option-cases, inl, inr, none,
  some, List, [], ◌∷◌, ◌++◌, arith, leb, first, update, length, length-append, length-take-le, ap,
  subst, ok_inj, ok,
}
use persistent_harness.Notification.Schema.{Delivery, DeliveryState, Status, Tables, delivery_is}
use persistent_harness.Notification.Notices.{expire, get}
use persistent_harness.Notification.Deliveries.{
  update_deliveries, claimable, Claim, leased_row, claim_rows, claim_endpoints, claim, offer_all,
  is_moot, mooted, is_exhausted, given_up,
}
use persistent_harness.Notification.Receipts.{leased, next_state, settled_row, retry_delay, receipt}

module _ (uuid : ℕ → String) where
  length-claim_rows :
      (endpoint : String) (now : ℕ) (rows : List Delivery) (taken : List Claim) (t : Tables)
      → length (claim_rows uuid endpoint now rows taken t).0 ≡ length taken + length rows
  unfolding claim_rows
  length-claim_rows endpoint now [] taken t = omega arith
  length-claim_rows endpoint now (row ∷ rows) taken t =
      let out = get row.notification_id now (
        update_deliveries (delivery_is row.notification_id endpoint)
          (leased_row (uuid (length taken)) now) t) in
      let new : Claim = record {
        notification = out.0;
        endpoint_id = endpoint;
        lease_id = uuid (length taken);
        attempt = row.attempts + 1;
      } in
      grind (
        arith,
        length-claim_rows endpoint now rows (taken ++ new ∷ []) out.1,
        length-append taken (new ∷ []),
      )

  length-claimable :
      (taken : ℕ) (endpoint : String) (now : ℕ) (t : Tables)
      → length (claimable taken endpoint now t) ≤ 8 - taken
  unfolding claimable
  length-claimable taken endpoint now t = length-take-le (8 - taken) _

  length-claim_endpoints :
      (endpoints : List String) (now : ℕ) (taken : List Claim) (t : Tables)
      → length taken ≤ 8
      → length (claim_endpoints uuid endpoints now taken t).0 ≤ 8
  unfolding claim_endpoints
  length-claim_endpoints [] now taken t h = h
  length-claim_endpoints (endpoint ∷ endpoints) now taken t h =
      elim (Bool-cases (leb 8 (length taken))) [
        | inl e ↦ rw e h
        | inr e ↦
            let rows = claimable (length taken) endpoint now t in
            let out = claim_rows uuid endpoint now rows taken t in
            let few : length out.0 ≤ 8 = grind (
              arith,
              length-claim_rows endpoint now rows taken t,
              length-claimable (length taken) endpoint now t,
            ) in
            rw e (length-claim_endpoints endpoints now out.0 out.1 few)
      ]

  -- A call claims 8 deliveries at most, whatever the endpoints.
  pub length-claim :
      (endpoints : List String) (now : ℕ) (t : Tables) → length (claim uuid endpoints now t).0 ≤ 8
  unfolding claim
  length-claim endpoints now t =
      let offered = offer_all endpoints now (expire now t) in
      length-claim_endpoints endpoints now []
        (update_deliveries (is_exhausted now) given_up
          (update_deliveries (is_moot offered.notices) mooted offered))
        (omega arith)

settled_none :
    (id endpoint lease_id : String) (f : Delivery → Delivery) (ds : List Delivery)
    → ((d : Delivery) → leased id endpoint lease_id (f d) ≡ false)
    → first (leased id endpoint lease_id) (update (delivery_is id endpoint) f ds) ≡ none
unfolding first update
settled_none id endpoint lease_id f [] h = refl
settled_none id endpoint lease_id f (d ∷ ds) h = elim (Bool-cases (delivery_is id endpoint d)) [
  | inl e ↦ rw e (rw (h d) (settled_none id endpoint lease_id f ds h))
  | inr e ↦ rw e (rw e (settled_none id endpoint lease_id f ds h))
]

receipt-none :
    (id endpoint lease_id : String) (status : Status) (now : ℕ) (t : Tables)
    → first (leased id endpoint lease_id) t.deliveries ≡ none
    → receipt id endpoint lease_id (some status) now t ≡ ok (none, t)
unfolding receipt
receipt-none id endpoint lease_id status now t e = rw (e, receipt) refl

-- A lease takes one receipt: after one that was recorded, no other is, and it changes nothing.
pub receipt_once :
    (id endpoint lease_id : String) (status later : Status) (state : DeliveryState) (now then : ℕ)
    (t t' : Tables)
    → receipt id endpoint lease_id (some status) now t ≡ ok (some state, t')
    → receipt id endpoint lease_id (some later) then t' ≡ ok (none, t')
unfolding receipt
receipt_once id endpoint lease_id status later state now then t t' h =
    elim (Option-cases (first (leased id endpoint lease_id) t.deliveries)) [
      | inl e ↦ absurd (none≢some state (ap (λ x. x.0) (ok_inj (rw (e, receipt) at h))))
      | inr (row, e) ↦
          let f = settled_row status (next_state status row) (now + retry_delay row.attempts) now in
          let same : update_deliveries (delivery_is id endpoint) f t ≡ t' =
            ap (λ x. x.1) (ok_inj (rw (e, receipt) at h)) in
          subst (λ u. receipt id endpoint lease_id (some later) then u ≡ ok (none, u)) same
            (receipt-none id endpoint lease_id later then
              (update_deliveries (delivery_is id endpoint) f t)
              (settled_none id endpoint lease_id f t.deliveries (λ d. ground arith)))
    ]
