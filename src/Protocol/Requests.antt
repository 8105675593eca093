-- ===== src/Protocol/Requests.antt =====
-- `validateRequest` of src/protocol.mjs.
use persistent_harness.Prelude.{
  String, Bool, false, Option, none, some, List, [], ◌∷◌, str_eq, ◌==◌, if◌then◌else◌, ok, ◌>>=◌,
}
use persistent_harness.Js.Values.{Json, object, Entry, get}
use persistent_harness.Cron.Text.{Text}
use persistent_harness.Protocol.Reading.{
  Reading, ◌>>◌, member, exact_record, string, whole_in, as_fields,
}
use persistent_harness.Inputs.Jpeg.{Bytes}
use persistent_harness.Protocol.Reading.{require, unsupported_version, unknown_request}
use persistent_harness.Protocol.Sessions.{
  activity, actor_registration, child_selector, client_registration, create_root, cursor_value,
  entries_request, message_ack, no_params, provision_skill_runtime, rename_session, session_name,
  session_only, session_with_value, subscribe, subscribe_root_output, visible_image,
  visible_messages,
}
use persistent_harness.Protocol.Children.{send_message, skill_manifest, spawn_child}
use persistent_harness.Protocol.Settings.{
  context_entries, context_usage, set_default_inference, set_fast_mode, set_inference, usage,
  usage_entries, usage_window,
}
use persistent_harness.Protocol.Records.{
  actor_input_delivery, actor_input_id, agent_message_entry, child_creation_entry,
  extension_ui_response, normalize_turn_failure, progress_entry, progress_heading,
}
use persistent_harness.Protocol.History.{lookup_entries, session_history}
use persistent_harness.Protocol.CronJobs.{cron_job}
use persistent_harness.Protocol.Notices.{
  attention_request, attention_resolved, endpoint_entries, endpoints_in, list_notifications,
  notification_param, record_delivery,
}
use persistent_harness.Protocol.Submitting.{submit, submitted_entries}

-- `requestTypes`.
abbrev pub request_types : List String
request_types =
    "register_actor" ∷ "register_client" ∷ "heartbeat" ∷ "set_session_name"
    ∷ "record_actor_turn_failure" ∷ "update_activity" ∷ "update_progress_heading"
    ∷ "record_progress_entry" ∷ "record_agent_message_entry" ∷ "record_child_creation_entry"
    ∷ "set_skill_manifest" ∷ "record_usage" ∷ "record_context_usage" ∷ "get_actor_input"
    ∷ "accept_actor_input" ∷ "record_input_delivery" ∷ "flush_actor_inputs" ∷ "get_roster"
    ∷ "run_reminders" ∷ "send_message" ∷ "ack_message" ∷ "spawn_child" ∷ "list_children"
    ∷ "session_history" ∷ "cron_job" ∷ "request_attention" ∷ "resolve_attention"
    ∷ "list_notifications" ∷ "get_notification" ∷ "read_notification" ∷ "dismiss_notification"
    ∷ "claim_notification_delivery" ∷ "record_notification_delivery" ∷ "stop_child" ∷ "revive_child"
    ∷ "delete_child" ∷ "create_root" ∷ "list_sessions" ∷ "rename_session" ∷ "subscribe_session"
    ∷ "unsubscribe_session" ∷ "subscribe_root_output" ∷ "unsubscribe_root_output" ∷ "submit_input"
    ∷ "respond_extension_ui" ∷ "get_session_inference" ∷ "set_session_inference"
    ∷ "set_default_inference" ∷ "set_session_fast_mode" ∷ "get_actor_state" ∷ "get_actor_entries"
    ∷ "get_visible_messages" ∷ "get_visible_image" ∷ "compact_session" ∷ "restart_kernel"
    ∷ "abort_session" ∷ "get_skill_runtime_plan" ∷ "provision_skill_runtime" ∷ "stop_session"
    ∷ "revive_session" ∷ "delete_session" ∷ "get_memory_diagnostics" ∷ "get_liveness" ∷ "get_status"
    ∷ "get_usage" ∷ "shutdown_daemon" ∷ []

abbrev pub Validator : Type 0
Validator = Option Json → Reading Json

unfoldable pub on_object : (Option Json → Reading (List Entry)) → Validator
unfolding as_fields
on_object read params = read params >>= λ entries. ok (object (as_fields entries))

pub record Row : Type 0 where
  pub name : String
  pub run : Validator

abbrev row : String → Validator → Row
row name run = record { name = name; run = run }

pub validator_of : List Row → String → Validator
unfolding no_params on_object
validator_of [] type = on_object no_params
validator_of (r ∷ rs) type = if str_eq r.name type then r.run else validator_of rs type

abbrev pub is_protocol_version : Option Json → Bool
is_protocol_version v = elim (whole_in v) [ none ↦ false | some n ↦ n == 2 ]

pub record Request : Type 0 where
  pub id : String
  pub type : String
  pub params : Json

-- `is_date s` is that `Date.parse(s)` is a number, `is_iso s` that the date of `s` is written as `s`;
-- `decode` and `encode` are those of `Buffer`, from and to "base64".
module _ (is_date is_iso : String → Bool) (decode : Text → Bytes) (encode : Bytes → Text) where
  abbrev pub validators : List Row
  validators =
      row "request_attention" (on_object attention_request)
      ∷ row "resolve_attention" (on_object attention_resolved)
      ∷ row "get_notification" (on_object notification_param)
      ∷ row "read_notification" (on_object notification_param)
      ∷ row "dismiss_notification" (on_object notification_param)
      ∷ row "list_notifications" (on_object list_notifications)
      ∷ row "claim_notification_delivery"
          (on_object (λ p. endpoints_in p >>= λ ids. ok (endpoint_entries ids)))
      ∷ row "record_notification_delivery" (on_object record_delivery)
      ∷ row "register_actor" (on_object actor_registration)
      ∷ row "register_client" (on_object client_registration)
      ∷ row "set_session_name" (on_object session_name)
      ∷ row "record_actor_turn_failure" (on_object normalize_turn_failure)
      ∷ row "update_activity" (on_object activity)
      ∷ row "update_progress_heading" (on_object progress_heading)
      ∷ row "record_progress_entry" (on_object (progress_entry is_date is_iso))
      ∷ row "record_agent_message_entry" (on_object (agent_message_entry is_date is_iso))
      ∷ row "record_child_creation_entry" (on_object (child_creation_entry is_date is_iso))
      ∷ row "set_skill_manifest" (on_object skill_manifest)
      ∷ row "record_usage" (on_object (λ p. usage p >>= λ u. ok (usage_entries u)))
      ∷ row "record_context_usage"
          (on_object (λ p. context_usage p >>= λ u. ok (context_entries u)))
      ∷ row "get_usage" (on_object usage_window)
      ∷ row "send_message" (on_object send_message)
      ∷ row "session_history" (on_object (λ p. session_history p >>= λ l. ok (lookup_entries l)))
      ∷ row "cron_job" (on_object cron_job)
      ∷ row "get_actor_input" (on_object actor_input_id)
      ∷ row "accept_actor_input" (on_object actor_input_id)
      ∷ row "record_input_delivery" (on_object (actor_input_delivery is_date is_iso))
      ∷ row "flush_actor_inputs" (on_object no_params)
      ∷ row "ack_message" (on_object message_ack)
      ∷ row "spawn_child" (on_object spawn_child)
      ∷ row "stop_child" (on_object child_selector)
      ∷ row "revive_child" (on_object child_selector)
      ∷ row "delete_child" (on_object child_selector)
      ∷ row "create_root" (on_object create_root)
      ∷ row "rename_session" (on_object rename_session)
      ∷ row "subscribe_session" (on_object subscribe)
      ∷ row "subscribe_root_output" (λ p. subscribe_root_output p >>= λ c. ok (cursor_value c))
      ∷ row "unsubscribe_root_output" (on_object no_params)
      ∷ row "unsubscribe_session" (on_object session_with_value)
      ∷ row "submit_input"
          (on_object (λ p. submit decode encode p >>= λ s. ok (submitted_entries s)))
      ∷ row "respond_extension_ui" (on_object extension_ui_response)
      ∷ row "get_session_inference" (on_object session_only)
      ∷ row "set_session_inference" (on_object set_inference)
      ∷ row "set_default_inference" (on_object set_default_inference)
      ∷ row "set_session_fast_mode" (on_object set_fast_mode)
      ∷ row "get_memory_diagnostics" (on_object session_only)
      ∷ row "get_actor_state" (on_object session_with_value)
      ∷ row "get_actor_entries" (on_object entries_request)
      ∷ row "get_visible_messages" (on_object visible_messages)
      ∷ row "get_visible_image" (on_object visible_image)
      ∷ row "compact_session" (on_object session_with_value)
      ∷ row "restart_kernel" (on_object session_with_value)
      ∷ row "abort_session" (on_object session_with_value)
      ∷ row "get_skill_runtime_plan" (on_object no_params)
      ∷ row "provision_skill_runtime" (on_object provision_skill_runtime)
      ∷ row "stop_session" (on_object session_with_value)
      ∷ row "revive_session" (on_object session_with_value)
      ∷ row "delete_session" (on_object session_with_value)
      ∷ []

  unfoldable pub validate_request : Option Json → Reading Request
  unfolding exact_record string member validator_of
  validate_request frame = do
    value ← exact_record frame ("version" ∷ "id" ∷ "type" ∷ "params" ∷ [])
    require (is_protocol_version (get value "version")) unsupported_version
    id ← string (get value "id") 128
    type ← string (get value "type") 64
    require (member request_types type) unknown_request
    params ← validator_of validators type (get value "params")
    ok (record { id = id; type = type; params = params })
