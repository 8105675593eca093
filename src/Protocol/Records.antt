-- ===== src/Protocol/Records.antt =====
-- The validators of src/protocol.mjs for the records of a conversation and the inputs of an actor.
use persistent_harness.Prelude.{
  ℕ, ◌*◌, String, Bool, false, not, ◌&&◌, ◌||◌, Option, none, some, List, [], ◌∷◌, ◌++◌, str_eq,
  leb, ◌==◌, is_some, is_none, if◌then◌else◌, length, every, ok, ◌>>=◌,
}
use persistent_harness.Js.Values.{Json, text, object, Entry, get, text_in}
use persistent_harness.Js.Texts.{units, byte_length, is_alphanumeric}
use persistent_harness.Cron.Text.{Text}
use persistent_harness.Protocol.Reading.{
  Reading, ◌>>◌, check, taken, member, exact_record, string, utf8, bool, whole_in, optionally,
  one_of, entry, given, whole_number, as_text, as_boolean, as_fields,
}
use persistent_harness.Conversation.{Birth, conversation_birth}
use persistent_harness.Protocol.Sessions.{session_id_param, session_entry}

unfoldable summary_of : String → Option Json → Reading (List Entry)
unfolding utf8
summary_of phase v =
    if str_eq phase "heading"
    then (utf8 v 512 >>= λ s. ok (entry "summary" (text s) ∷ []))
    else ok []

unfoldable pub progress_heading : Option Json → Reading (List Entry)
unfolding exact_record string utf8 member summary_of
progress_heading params = do
  value ← exact_record params ("phase" ∷ "turnId" ∷ "summary" ∷ [])
  phase ← string (get value "phase") 16
  check (member ("start" ∷ "heading" ∷ "settled" ∷ []) phase)
  check (not (str_eq phase "heading" && is_none (get value "summary")))
  check (str_eq phase "heading" || is_none (get value "summary"))
  turn_id ← string (get value "turnId") 128
  summary ← summary_of phase (get value "summary")
  ok (entry "phase" (text phase) ∷ entry "turnId" (text turn_id) ∷ summary)

abbrev is_turn_sign : ℕ → Bool
is_turn_sign c = is_alphanumeric c || c == b'-'

abbrev is_turn_id : Text → Bool
is_turn_id cs = leb 1 (length cs) && leb (length cs) 128 && every is_turn_sign cs

abbrev failure_classes : List String
failure_classes =
    "prompt_preparation" ∷ "request_preparation" ∷ "compaction_failed" ∷ "turn_failed" ∷ []

abbrev dispatch_boundaries : List String
dispatch_boundaries =
    "before_provider_dispatch" ∷ "provider_dispatch_unknown" ∷ "tool_effects_possible" ∷ []

abbrev is_one : Option ℕ → Bool
is_one none = false
is_one (some n) = n == 1

unfoldable pub normalize_turn_failure : Option Json → Reading (List Entry)
unfolding exact_record member
normalize_turn_failure v = do
  value ← exact_record v ("version" ∷ "turnId" ∷ "failureClass" ∷ "dispatchBoundary" ∷ [])
  check (is_one (whole_in (get value "version")))
  turn_id ← taken (text_in (get value "turnId"))
  check (is_turn_id (units turn_id))
  class ← one_of failure_classes (get value "failureClass")
  boundary ← one_of dispatch_boundaries (get value "dispatchBoundary")
  ok (
      entry "version" (whole_number 1)
      ∷ entry "turnId" (text turn_id)
      ∷ entry "failureClass" (text class)
      ∷ entry "dispatchBoundary" (text boundary)
      ∷ [])

unfoldable pub actor_input_id : Option Json → Reading (List Entry)
unfolding exact_record string
actor_input_id params = do
  value ← exact_record params ("inputId" ∷ [])
  id ← string (get value "inputId") 128
  ok (entry "inputId" (text id) ∷ [])

abbrev short_text : Option Json → Reading String
short_text v = do s ← taken (text_in v); check (leb (byte_length s) (32 * 1024)); ok s

unfoldable pub extension_ui_response : Option Json → Reading (List Entry)
unfolding session_id_param string
extension_ui_response params = do
  p ← session_id_param params ("uiRequestId" ∷ "value" ∷ "confirmed" ∷ "cancelled" ∷ [])
  id ← string (get p.value "uiRequestId") 128
  value ← optionally (get p.value "value") short_text
  confirmed ← optionally (get p.value "confirmed") bool
  cancelled ← optionally (get p.value "cancelled") bool
  check (is_some value || is_some confirmed || is_some cancelled)
  ok (
      session_entry p ∷ entry "uiRequestId" (text id) ∷ given "value" (as_text value)
      ++ given "confirmed" (as_boolean confirmed)
      ++ given "cancelled" (as_boolean cancelled))

-- `is_date s` is that `Date.parse(s)` is a number; for `is_iso` see `conversation_birth`.
module _ (is_date is_iso : String → Bool) where
  unfoldable date_in : Option Json → Reading String
  unfolding string
  date_in v = do s ← string v 64; check (is_date s); ok s

  unfoldable as_birth : Option Birth → List Entry
  unfolding as_fields
  as_birth none = []
  as_birth (some b) =
      entry "harnessBirth" (
        object (
          as_fields (
            entry "version" (whole_number 1)
            ∷ entry "createdAt" (text b.created_at)
            ∷ entry "sequence" (whole_number b.sequence)
            ∷ [])))
      ∷ []

  unfoldable pub progress_entry : Option Json → Reading (List Entry)
  unfolding exact_record string utf8 conversation_birth date_in as_birth
  progress_entry params = do
    value ← exact_record params ("entryId" ∷ "summary" ∷ "createdAt" ∷ "harnessBirth" ∷ [])
    created_at ← date_in (get value "createdAt")
    check (
        is_none (get value "harnessBirth")
        || is_some (conversation_birth is_iso (get value "harnessBirth")))
    entry_id ← string (get value "entryId") 128
    summary ← utf8 (get value "summary") 512
    ok (
        entry "entryId" (text entry_id)
        ∷ entry "summary" (text summary)
        ∷ entry "createdAt" (text created_at)
        ∷ as_birth (conversation_birth is_iso (get value "harnessBirth")))

  abbrev agent_message_keys : List String
  agent_message_keys =
      "entryId" ∷ "messageId" ∷ "direction" ∷ "peerId" ∷ "peerName" ∷ "relationship" ∷ "body"
      ∷ "createdAt" ∷ []

  unfoldable pub agent_message_entry : Option Json → Reading (List Entry)
  unfolding exact_record string utf8 member date_in
  agent_message_entry params = do
    value ← exact_record params agent_message_keys
    direction ← string (get value "direction") 4
    check (member ("from" ∷ "to" ∷ []) direction)
    relationship ← string (get value "relationship") 16
    check (member ("parent" ∷ "child" ∷ "sibling" ∷ []) relationship)
    created_at ← date_in (get value "createdAt")
    entry_id ← string (get value "entryId") 128
    message_id ← string (get value "messageId") 128
    peer_id ← string (get value "peerId") 128
    peer_name ← utf8 (get value "peerName") 1024
    body ← utf8 (get value "body") (16 * 1024)
    ok (
        entry "entryId" (text entry_id)
        ∷ entry "messageId" (text message_id)
        ∷ entry "direction" (text direction)
        ∷ entry "peerId" (text peer_id)
        ∷ entry "peerName" (text peer_name)
        ∷ entry "relationship" (text relationship)
        ∷ entry "body" (text body)
        ∷ entry "createdAt" (text created_at)
        ∷ [])

  unfoldable pub child_creation_entry : Option Json → Reading (List Entry)
  unfolding exact_record string utf8 date_in
  child_creation_entry params = do
    value ← exact_record params (
        "entryId" ∷ "taskId" ∷ "childId" ∷ "childName" ∷ "relationship" ∷ "body" ∷ "createdAt" ∷ [])
    relationship ← string (get value "relationship") 16
    check (str_eq relationship "child")
    created_at ← date_in (get value "createdAt")
    entry_id ← string (get value "entryId") 128
    task_id ← string (get value "taskId") 128
    child_id ← string (get value "childId") 128
    child_name ← utf8 (get value "childName") 1024
    body ← utf8 (get value "body") (32 * 1024)
    ok (
        entry "entryId" (text entry_id)
        ∷ entry "taskId" (text task_id)
        ∷ entry "childId" (text child_id)
        ∷ entry "childName" (text child_name)
        ∷ entry "relationship" (text relationship)
        ∷ entry "body" (text body)
        ∷ entry "createdAt" (text created_at)
        ∷ [])

  unfoldable pub actor_input_delivery : Option Json → Reading (List Entry)
  unfolding exact_record string date_in
  actor_input_delivery params = do
    value ← exact_record params ("inputId" ∷ "entryId" ∷ "deliveredAt" ∷ [])
    delivered_at ← date_in (get value "deliveredAt")
    id ← string (get value "inputId") 128
    entry_id ← string (get value "entryId") 128
    ok (
        entry "inputId" (text id)
        ∷ entry "entryId" (text entry_id)
        ∷ entry "deliveredAt" (text delivered_at)
        ∷ [])
