-- ===== src/Notification/Schema.antt =====
-- The tables of src/notification-store.mjs as the lists of their rows.
use persistent_harness.Prelude.{ℕ, String, Bool, true, false, ◌&&◌, Option, List, str_eq}
use persistent_harness.Cron.Text.{Text}

pub data NoticeKind : Type 0 where
  idle attention cron : NoticeKind

pub data NoticeState : Type 0 where
  pending resolved cancelled expired superseded : NoticeState

pub data Closer : Type 0 where
  agent user : Closer

-- `source_type` is the type in `source_json`, which `cancelDialogs` reads.
pub record Notice : Type 0 where
  pub id : String
  pub seq : ℕ
  pub source_key : String
  pub root_id : String
  pub session_id : String
  pub episode_id : Option String
  pub kind : NoticeKind
  pub title : Text
  pub body : Text
  pub created_at : ℕ
  pub expires_at : ℕ
  pub state : NoticeState
  pub read_at : Option ℕ
  pub updated_at : ℕ
  pub closed_by : Option Closer
  pub source_type : String
  pub source_json : String

pub data DeliveryState : Type 0 where
  pending inflight accepted failed suppressed expired : DeliveryState

-- What an endpoint says of a notice that was sent to it.
pub data Status : Type 0 where
  accepted retry gone failed suppressed : Status

pub data Code : Type 0 where
  received : Status → Code
  attempts_exhausted : Code

pub record Delivery : Type 0 where
  pub notification_id : String
  pub endpoint_id : String
  pub state : DeliveryState
  pub attempts : ℕ
  pub due_at : ℕ
  pub lease_id : Option String
  pub lease_until : Option ℕ
  pub code : Option Code
  pub accepted_at : Option ℕ
  pub close_claimed_at : Option ℕ

-- What is used of `notification_families`.
pub record Family : Type 0 where
  pub root_id : String
  pub episode_id : Option String
  pub closed_at : Option ℕ

-- `next_seq` is the next number that AUTOINCREMENT gives.
pub record Tables : Type 0 where
  pub notices : List Notice
  pub deliveries : List Delivery
  pub families : List Family
  pub next_seq : ℕ

pub data NoticeError : Type 0 where
  invalid_transition invalid_receipt : NoticeError

abbrev pub is_pending : NoticeState → Bool
is_pending pending = true
is_pending resolved = false
is_pending cancelled = false
is_pending expired = false
is_pending superseded = false

abbrev pub is_attention : NoticeKind → Bool
is_attention attention = true
is_attention idle = false
is_attention cron = false

abbrev pub is_due : DeliveryState → Bool
is_due pending = true
is_due inflight = false
is_due accepted = false
is_due failed = false
is_due suppressed = false
is_due expired = false

abbrev pub is_inflight : DeliveryState → Bool
is_inflight inflight = true
is_inflight pending = false
is_inflight accepted = false
is_inflight failed = false
is_inflight suppressed = false
is_inflight expired = false

abbrev pub is_accepted : DeliveryState → Bool
is_accepted accepted = true
is_accepted pending = false
is_accepted inflight = false
is_accepted failed = false
is_accepted suppressed = false
is_accepted expired = false

abbrev pub notice_is : String → Notice → Bool
notice_is id n = str_eq n.id id

abbrev pub delivery_is : String → String → Delivery → Bool
delivery_is id endpoint d = str_eq d.notification_id id && str_eq d.endpoint_id endpoint
