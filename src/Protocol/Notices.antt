-- ===== src/Protocol/Notices.antt =====
-- The validators of src/protocol.mjs for notices and their deliveries.
use persistent_harness.Prelude.{
  ℕ, String, Bool, false, ◌&&◌, ◌||◌, Option, List, [], ◌∷◌, ◌==◌, if◌then◌else◌, length, every, ok,
  ◌>>=◌,
}
use persistent_harness.Js.Values.{Json, text, array, Entry, get}
use persistent_harness.Js.Texts.{units, is_alphanumeric, is_hex}
use persistent_harness.Cron.Text.{Text}
use persistent_harness.Protocol.Reading.{
  Reading, ◌>>◌, check, member, exact_record, string, integer, read_array, optionally, or_else,
  one_of, each, entry, whole_number, as_items, texts, safe_max, is_plain,
}

pub notification_identity : Option Json → Reading String
unfolding string
notification_identity v = do
  s ← string v 64
  check (length (units s) == 64 && every is_hex (units s))
  ok s

abbrev is_key_sign : ℕ → Bool
is_key_sign c = is_alphanumeric c || c == b'.' || c == b'_' || c == b':' || c == b'-'

-- `/^[a-zA-Z0-9][a-zA-Z0-9._:-]*$/`.
unfoldable is_stable_key : Text → Bool
is_stable_key [] = false
is_stable_key (c ∷ cs) = is_alphanumeric c && every is_key_sign cs

unfoldable key_in : Option Json → Reading String
unfolding string is_stable_key
key_in v = do key ← string v 128; check (is_stable_key (units key)); ok key

-- `attentionRequest`, and with `resolve` the next.
unfoldable pub attention_request : Option Json → Reading (List Entry)
unfolding exact_record string key_in integer
attention_request params = do
  value ← exact_record params ("key" ∷ "title" ∷ "body" ∷ "expiresIn" ∷ [])
  key ← key_in (get value "key")
  title ← string (get value "title") 120
  body ← string (get value "body") 1000
  check (is_plain title && is_plain body)
  expires ← optionally (get value "expiresIn") (λ v. integer v 1 604800)
  ok (
      entry "key" (text key)
      ∷ entry "title" (text title)
      ∷ entry "body" (text body)
      ∷ entry "expiresIn" (whole_number (or_else expires 86400))
      ∷ [])

unfoldable pub attention_resolved : Option Json → Reading (List Entry)
unfolding exact_record key_in
attention_resolved params = do
  value ← exact_record params ("key" ∷ [])
  key ← key_in (get value "key")
  ok (entry "key" (text key) ∷ [])

unfoldable pub notification_param : Option Json → Reading (List Entry)
unfolding exact_record notification_identity
notification_param params = do
  value ← exact_record params ("id" ∷ [])
  id ← notification_identity (get value "id")
  ok (entry "id" (text id) ∷ [])

abbrev views : List String
views = "all" ∷ "inbox" ∷ "history" ∷ []

unfoldable pub list_notifications : Option Json → Reading (List Entry)
unfolding exact_record integer member
list_notifications params = do
  value ← exact_record params ("limit" ∷ "before" ∷ "view" ∷ [])
  view ← optionally (get value "view") (one_of views)
  limit ← optionally (get value "limit") (λ v. integer v 1 100)
  before ← optionally (get value "before") (λ v. integer v 1 safe_max)
  ok (
      entry "limit" (whole_number (or_else limit 100))
      ∷ entry "before" (whole_number (or_else before safe_max))
      ∷ entry "view" (text (or_else view "all"))
      ∷ [])

-- `[...new Set(ids)]`: each once, where it came first.
unfoldable pub unique : List String → List String → List String
unfolding member
unique seen [] = []
unique seen (s ∷ ss) = if member seen s then unique seen ss else s ∷ unique (s ∷ seen) ss

-- The endpoints of `claim_notification_delivery`.
unfoldable pub endpoints_in : Option Json → Reading (List String)
unfolding exact_record read_array each notification_identity unique
endpoints_in params = do
  value ← exact_record params ("endpointIds" ∷ [])
  raw ← read_array (get value "endpointIds") 8
  ids ← each notification_identity raw
  ok (unique [] ids)

unfoldable pub endpoint_entries : List String → List Entry
unfolding as_items texts
endpoint_entries ids = entry "endpointIds" (array (as_items (texts ids))) ∷ []

abbrev delivery_statuses : List String
delivery_statuses = "accepted" ∷ "retry" ∷ "gone" ∷ "failed" ∷ "suppressed" ∷ []

unfoldable pub record_delivery : Option Json → Reading (List Entry)
unfolding exact_record string notification_identity member
record_delivery params = do
  value ← exact_record params ("id" ∷ "endpointId" ∷ "leaseId" ∷ "status" ∷ [])
  status ← one_of delivery_statuses (get value "status")
  id ← notification_identity (get value "id")
  endpoint_id ← notification_identity (get value "endpointId")
  lease_id ← string (get value "leaseId") 128
  ok (
      entry "id" (text id)
      ∷ entry "endpointId" (text endpoint_id)
      ∷ entry "leaseId" (text lease_id)
      ∷ entry "status" (text status)
      ∷ [])
