-- ===== src/Notification/Settled.antt =====
-- A notice of src/notification-store.mjs that is closed stays as it was closed.
use persistent_harness.Prelude.{
  ℕ, ◌≡◌, refl, ap, ◌∙◌, String, Bool, true, false, Bool-cases, Option-cases, inl, inr, Option,
  none, some, List, [], ◌∷◌, arith, first, changed, str_eq, leb, if◌then◌else◌, first-update,
  first-append, length,
}
use persistent_harness.Notification.Schema.{
  Notice, NoticeState, expired, cancelled, Closer, Delivery, Status, Tables, is_pending, notice_is,
  delivery_is,
}
use persistent_harness.Notification.Notices.{
  update_notices, has_lapsed, moved_to, expire, get, notice_row, clashes, insert_notice, create,
  attention_key, NewNotice, requested, request, pending_with, closed_row, may_close, transition,
  resolve_key, read_row, read, pending_in, cancel_session, pending_dialog, cancel_dialogs,
  list_notices,
}
use persistent_harness.Notification.Deliveries.{
  is_exhausted, given_up, is_moot, mooted, update_deliveries, claimable, leased_row, offer,
  offer_all, claim_rows, claim_endpoints, claim, Claim,
}
use persistent_harness.Notification.Closures.{
  clearable, cleared_row, clear_rows, clear_endpoints, claim_closures, Closure,
}
use persistent_harness.Notification.Receipts.{receipt, leased}
use persistent_harness.Notification.Calls.{
  Call, creates, requests, resolves, gets, lists, reads, closes, cancels_session, cancels_dialogs,
  claims, claims_closures, receives, after, step, steps,
}

-- The notice is stored under its id, in the state and with the closer that it was closed with.
abbrev pub StaysClosed : Notice → String → Tables → Type 0
StaysClosed n id t =
    (later : Notice) × (first (notice_is id) t.notices ≡ some later)
    × (later.state ≡ n.state)
    × (later.closed_by ≡ n.closed_by)

module _ (n : Notice) (id : String) (closed : is_pending n.state ≡ false) where
  -- An `UPDATE` of pending notices, or of columns that are none of these, keeps the notice.
  update_stays :
      (p : Notice → Bool) (f : Notice → Notice) (t : Tables)
      → ((x : Notice) → (f x).id ≡ x.id)
      → ((x : Notice)
          → is_pending x.state ≡ false
          → p x ≡ true
          → ((f x).state ≡ x.state) × ((f x).closed_by ≡ x.closed_by))
      → StaysClosed n id t
      → StaysClosed n id (update_notices p f t)
  update_stays p f t same keeps (later, found, state, closer) =
      let e : first (notice_is id) (update_notices p f t).notices
          ≡ some (if p later then f later else later) =
        first-update (notice_is id) p f t.notices (λ x. ap (λ i. str_eq i id) (same x))
        ∙ ap (changed (λ x. if p x then f x else x)) found in
      elim (Bool-cases (p later)) [
        | inl hit ↦
            let (s, c) = keeps later (ap is_pending state ∙ closed) hit in
            (f later, rw hit at e, s ∙ state, c ∙ closer)
        | inr miss ↦ (later, rw miss at e, state, closer)
      ]

  expire_stays : (now : ℕ) (t : Tables) → StaysClosed n id t → StaysClosed n id (expire now t)
  unfolding expire
  expire_stays now t =
      update_stays (has_lapsed now) (moved_to expired now) t (λ x. refl) (λ x c h. ground arith)

  insert_stays :
      (new : Notice) (t : Tables) → StaysClosed n id t → StaysClosed n id (insert_notice new t)
  unfolding insert_notice
  insert_stays new t (later, found, s, c) =
      elim (Option-cases (first (clashes new.id new.source_key) t.notices)) [
        | inl e ↦
            rw (e, insert_notice)
              (later, first-append (notice_is id) t.notices (new ∷ []) later found, s, c)
        | inr (other, e) ↦ rw (e, insert_notice) (later, found, s, c)
      ]

  transition_stays :
      (target : String) (state : NoticeState) (now : ℕ) (closed_by : Option Closer) (t : Tables)
      → StaysClosed n id t
      → StaysClosed n id (after (transition target state now closed_by t) t)
  unfolding transition get
  transition_stays target state now closed_by t s = elim (Bool-cases (may_close state)) [
    | inr e ↦ rw e s
    | inl e ↦ rw e (
        expire_stays now
          (update_notices (pending_with target) (closed_row state closed_by now) (expire now t))
          (update_stays (pending_with target) (closed_row state closed_by now) (expire now t)
            (λ x. refl) (λ x c h. ground arith) (expire_stays now t s)))
  ]

  offer_stays :
      (endpoints : List String) (now : ℕ) (t : Tables)
      → StaysClosed n id t
      → StaysClosed n id (offer_all endpoints now t)
  unfolding offer_all
  offer_stays [] now t s = s
  offer_stays (endpoint ∷ endpoints) now t s =
      offer_stays endpoints now
        (record t { deliveries = offer endpoint now t.notices t.deliveries }) s

  claim_rows_stays :
      (uuid : ℕ → String) (endpoint : String) (now : ℕ) (rows : List Delivery) (taken : List Claim)
      (t : Tables)
      → StaysClosed n id t
      → StaysClosed n id (claim_rows uuid endpoint now rows taken t).1
  unfolding claim_rows get
  claim_rows_stays uuid endpoint now [] taken t s = s
  claim_rows_stays uuid endpoint now (row ∷ rows) taken t s =
      claim_rows_stays uuid endpoint now rows _ _ (
        expire_stays now
          (update_deliveries (delivery_is row.notification_id endpoint)
            (leased_row (uuid (length taken)) now) t)
          s)

  claim_endpoints_stays :
      (uuid : ℕ → String) (endpoints : List String) (now : ℕ) (taken : List Claim) (t : Tables)
      → StaysClosed n id t
      → StaysClosed n id (claim_endpoints uuid endpoints now taken t).1
  unfolding claim_endpoints
  claim_endpoints_stays uuid [] now taken t s = s
  claim_endpoints_stays uuid (endpoint ∷ endpoints) now taken t s =
      elim (Bool-cases (leb 8 (length taken))) [
        | inl e ↦ rw e s
        | inr e ↦ rw e (
            let out =
              claim_rows uuid endpoint now (claimable (length taken) endpoint now t) taken t in
            claim_endpoints_stays uuid endpoints now out.0 out.1 (
              claim_rows_stays uuid endpoint now (claimable (length taken) endpoint now t) taken t
                s))
      ]

  clear_rows_stays :
      (endpoint : String) (now : ℕ) (rows : List Delivery) (closures : List Closure) (t : Tables)
      → StaysClosed n id t
      → StaysClosed n id (clear_rows endpoint now rows closures t).1
  unfolding clear_rows get
  clear_rows_stays endpoint now [] closures t s = s
  clear_rows_stays endpoint now (row ∷ rows) closures t s = clear_rows_stays endpoint now rows _ _ (
      expire_stays now
        (update_deliveries (delivery_is row.notification_id endpoint) (cleared_row now) t) s)

  clear_endpoints_stays :
      (endpoints : List String) (now : ℕ) (closures : List Closure) (t : Tables)
      → StaysClosed n id t
      → StaysClosed n id (clear_endpoints endpoints now closures t).1
  unfolding clear_endpoints
  clear_endpoints_stays [] now closures t s = s
  clear_endpoints_stays (endpoint ∷ endpoints) now closures t s =
      let rows = clearable (length closures) endpoint t in
      let out = clear_rows endpoint now rows closures t in
      clear_endpoints_stays endpoints now out.0 out.1
        (clear_rows_stays endpoint now rows closures t s)

  receipt_stays :
      (target endpoint lease_id : String) (status : Option Status) (now : ℕ) (t : Tables)
      → StaysClosed n id t
      → StaysClosed n id (after (receipt target endpoint lease_id status now t) t)
  unfolding receipt
  receipt_stays target endpoint lease_id none now t s = s
  receipt_stays target endpoint lease_id (some status) now t s =
      elim (Option-cases (first (leased target endpoint lease_id) t.deliveries)) [
        | inl e ↦ rw (e, receipt) s
        | inr (row, e) ↦ rw (e, receipt) s
      ]

module _ (notification_id : String → String) (notifies_root : String → Bool) where
  create_stays :
      (p : NewNotice) (now : ℕ) (n : Notice) (id : String) (t : Tables)
      → is_pending n.state ≡ false
      → StaysClosed n id t
      → StaysClosed n id (create notification_id notifies_root p now t).1
  unfolding create get
  create_stays p now n id t c s = elim (Bool-cases (notifies_root p.root_id)) [
    | inl e ↦
        let row = notice_row (notification_id p.key) p now t in
        rw (e, create) (expire_stays n id c now (insert_notice row t) (insert_stays n id c row t s))
    | inr e ↦ rw (e, create) s
  ]

  step_stays :
      (call : Call) (n : Notice) (id : String) (t : Tables)
      → is_pending n.state ≡ false
      → StaysClosed n id t
      → StaysClosed n id (step notification_id notifies_root call t)
  unfolding step request get resolve_key read cancel_session cancel_dialogs list_notices claim
      claim_closures
  step_stays (creates p now) n id t c s = create_stays p now n id t c s
  step_stays (requests session_id key title body expires_in source now) n id t c s =
      create_stays (requested session_id key title body expires_in source now t) now n id t c s
  step_stays (resolves session_id key now) n id t c s =
      transition_stays n id c (notification_id (attention_key session_id key)) NoticeState.resolved
        now (some Closer.agent) t s
  step_stays (gets target now) n id t c s = expire_stays n id c now t s
  step_stays (lists limit before view now) n id t c s = expire_stays n id c now t s
  step_stays (reads target now) n id t c s =
      expire_stays n id c now (update_notices (notice_is target) (read_row now) t) (
        update_stays n id c (notice_is target) (read_row now) t (λ x. refl) (λ x d h. (refl, refl))
          s)
  step_stays (closes target state closed_by now) n id t c s =
      transition_stays n id c target state now closed_by t s
  step_stays (cancels_session target now) n id t c s =
      update_stays n id c (pending_in target) (moved_to cancelled now) t (λ x. refl)
        (λ x d h. ground arith) s
  step_stays (cancels_dialogs now) n id t c s =
      update_stays n id c pending_dialog (moved_to cancelled now) t (λ x. refl)
        (λ x d h. ground arith) s
  step_stays (claims uuid endpoints now) n id t c s =
      let offered = offer_all endpoints now (expire now t) in
      claim_endpoints_stays n id c uuid endpoints now []
        (update_deliveries (is_exhausted now) given_up
          (update_deliveries (is_moot offered.notices) mooted offered))
        (offer_stays n id c endpoints now (expire now t) (expire_stays n id c now t s))
  step_stays (claims_closures endpoints now) n id t c s =
      clear_endpoints_stays n id c endpoints now [] (expire now t) (expire_stays n id c now t s)
  step_stays (receives target endpoint lease_id status now) n id t c s =
      receipt_stays n id c target endpoint lease_id status now t s

  steps_stay :
      (calls : List Call) (n : Notice) (id : String) (t : Tables)
      → is_pending n.state ≡ false
      → StaysClosed n id t
      → StaysClosed n id (steps notification_id notifies_root calls t)
  unfolding steps
  steps_stay [] n id t c s = s
  steps_stay (call ∷ calls) n id t c s =
      steps_stay calls n id (step notification_id notifies_root call t) c
        (step_stays call n id t c s)

  -- A notice that is no longer pending is still stored after any sequence of the calls of `Call`, in
  -- the state that it was closed in and with the same closer.
  pub steps-StaysClosed :
      (calls : List Call) (n : Notice) (id : String) (t : Tables)
      → is_pending n.state ≡ false
      → first (notice_is id) t.notices ≡ some n
      → StaysClosed n id (steps notification_id notifies_root calls t)
  steps-StaysClosed calls n id t c found = steps_stay calls n id t c (n, found, refl, refl)
