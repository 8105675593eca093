-- ===== src/Notification/Closures.antt =====
-- `claimClosures` of src/notification-store.mjs.
use persistent_harness.Prelude.{
  ℕ, ◌-◌, String, Bool, not, ◌&&◌, Option, none, some, List, [], ◌∷◌, ◌++◌, str_eq, leb, is_some,
  is_none, first, select, order_by, take, length,
}
use persistent_harness.Notification.Schema.{
  Notice, Delivery, Tables, is_pending, is_attention, is_accepted, notice_is, delivery_is,
}
use persistent_harness.Notification.Notices.{expire, get}
use persistent_harness.Notification.Deliveries.{update_deliveries}

abbrev is_closed_attention : String → Notice → Bool
is_closed_attention id n = notice_is id n && is_attention n.kind && not (is_pending n.state)

abbrev may_clear : String → List Notice → Delivery → Bool
may_clear endpoint notices d =
    str_eq d.endpoint_id endpoint
    && is_accepted d.state
    && is_none d.close_claimed_at
    && is_some (first (is_closed_attention d.notification_id) notices)

abbrev updated_at_of : Option Notice → ℕ
updated_at_of none = 0
updated_at_of (some n) = n.updated_at

-- `ORDER BY n.updated_at`.
abbrev closed_first : List Notice → Delivery → Delivery → Bool
closed_first notices a b =
    leb (updated_at_of (first (notice_is a.notification_id) notices))
      (updated_at_of (first (notice_is b.notification_id) notices))

pub clearable : ℕ → String → Tables → List Delivery
clearable taken endpoint t =
    take (8 - taken)
      (order_by (closed_first t.notices) (select (may_clear endpoint t.notices) t.deliveries))

pub record Closure : Type 0 where
  pub notification : Option Notice
  pub endpoint_id : String

abbrev pub cleared_row : ℕ → Delivery → Delivery
cleared_row now d = record d { close_claimed_at = some now }

unfoldable pub clear_rows :
    String → ℕ → List Delivery → List Closure → Tables → List Closure × Tables
unfolding get
clear_rows endpoint now [] closures t = (closures, t)
clear_rows endpoint now (row ∷ rows) closures t =
    let cleared =
      update_deliveries (delivery_is row.notification_id endpoint) (cleared_row now) t in
    let (notice, t') = get row.notification_id now cleared in
    clear_rows endpoint now rows
      (closures ++ (record { notification = notice; endpoint_id = endpoint }) ∷ []) t'

unfoldable pub clear_endpoints : List String → ℕ → List Closure → Tables → List Closure × Tables
unfolding clear_rows clearable
clear_endpoints [] now closures t = (closures, t)
clear_endpoints (endpoint ∷ endpoints) now closures t =
    let (closures', t') =
      clear_rows endpoint now (clearable (length closures) endpoint t) closures t in
    clear_endpoints endpoints now closures' t'

unfoldable pub claim_closures : List String → ℕ → Tables → List Closure × Tables
unfolding expire clear_endpoints
claim_closures endpoints now t = clear_endpoints endpoints now [] (expire now t)
