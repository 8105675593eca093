-- ===== src/Tests/ProtocolRuns.antt =====
-- The theorems on src/protocol.mjs at requests that are accepted.
use persistent_harness.Prelude.{
  ◌≤◌, ◌≡◌, ◌↔◌, refl, String, Bool, true, ◌||◌, Option, none, some, List, [], ◌∷◌, str_eq, is_none,
  ok, err, inl, inr, arith,
}
use persistent_harness.Cron.Text.{Text}
use persistent_harness.Js.Texts.{utf16_length}
use persistent_harness.Js.Values.{
  Json, boolean, number, text, array, object, nil, item, field, end, Entry, get,
}
use persistent_harness.Inputs.Jpeg.{Bytes}
use persistent_harness.Protocol.Reading.{Code, exact_record, member, entry}
use persistent_harness.Protocol.Checked.{IsFit}
use persistent_harness.Protocol.Settings.{Usage, usage, ContextUsage, context_usage}
use persistent_harness.Protocol.Bounds.{
  IsExact, IsTogether, usage-IsExact, context_usage-IsTogether,
}
use persistent_harness.Protocol.Sessions.{Cursor, subscribe_root_output}
use persistent_harness.Protocol.Cursors.{IsCursor, subscribe_root_output-IsCursor}
use persistent_harness.Protocol.Submitting.{Submitted, submit}
use persistent_harness.Protocol.Submissions.{IsComplete, submit-IsComplete}
use persistent_harness.Protocol.Notices.{endpoints_in}
use persistent_harness.Protocol.Searches.{IsApart, endpoints_in-IsApart}
use persistent_harness.Protocol.Requests.{Request, validator_of, validators, validate_request}
use persistent_harness.Protocol.Server.{
  validate_server_frame, response, error_response, protocol_error_frame, as_frame,
}
use persistent_harness.Protocol.Accepted.{IsRequest, validate_request_iff}
use persistent_harness.Protocol.Answered.{
  validate_server_frame-answers, protocol_error_frame_iff, validate_request-refuted,
}

abbrev usage_params : Option Json
usage_params = some (
    object (
      field "entryId" (text "e") (
        field "provider" (text "p") (
          field "model" (text "m") (
            field "input" (number 10 0) (
              field "output" (number 7 0) (
                field "cacheRead" (number 0 0) (
                  field "cacheWrite" (number 0 0) (
                    field "reasoning" (number 7 0) (
                      field "totalTokens" (number 17 0)
                        (field "costTotal" (number 1 3) end)))))))))))

abbrev used : Usage
used = record {
  entry_id = "e";
  provider = "p";
  model_id = "m";
  input = 10;
  output = 7;
  cache_read = 0;
  cache_write = 0;
  reasoning = some 7;
  total_tokens = 17;
  cost_total = number 1 3;
}

usage_run : usage usage_params ≡ ok used
unfolding usage persistent_harness.Js.Values.entries_of member get persistent_harness.Js.Texts.units
usage_run = refl

usage-IsExact_example : IsExact used
usage-IsExact_example = usage-IsExact usage_params used usage_run

abbrev context_params : Option Json
context_params = some (
    object (
      field "tokens" (number 50 0)
        (field "contextWindow" (number 100 0) (field "percent" (number 50 0) end))))

abbrev filled : ContextUsage
filled = record { tokens = some 50; context_window = 100; percent = some (number 50 0) }

context_run : context_usage context_params ≡ ok filled
unfolding context_usage persistent_harness.Js.Values.entries_of member get
context_run = refl

context_usage-IsTogether_example :
    (1 ≤ 100) × (100 ≤ 10000000) × IsTogether (some 50) (some (number 50 0))
context_usage-IsTogether_example = context_usage-IsTogether context_params filled context_run

abbrev cursor_params : Option Json
cursor_params = some (object (field "generation" (text "g1") (field "afterSeq" (number 4 0) end)))

cursor_run : subscribe_root_output cursor_params ≡ ok (Cursor.after "g1" 4)
unfolding subscribe_root_output persistent_harness.Js.Values.entries_of member get
    persistent_harness.Js.Texts.units
cursor_run = refl

subscribe_root_output-IsCursor_example :
    (value : List Entry) × (exact_record cursor_params
        ("generation" ∷ "afterSeq" ∷ "invalidCursor" ∷ [])
      ≡ ok value)
    × IsCursor value (Cursor.after "g1" 4)
subscribe_root_output-IsCursor_example =
    subscribe_root_output-IsCursor cursor_params (Cursor.after "g1" 4) cursor_run

abbrev decode : Text → Bytes
decode cs = cs

abbrev encode : Bytes → Text
encode bs = bs

abbrev is_date : String → Bool
is_date s = true

abbrev submit_params : Option Json
submit_params = some (
    object (
      field "sessionId" (text "s") (
        field "retryOf" (text "r")
          (field "clientRequestId" (text "c") (field "retryOriginal" (boolean true) end)))))

abbrev retried : Submitted
retried = record {
  session_id = "s";
  message = none;
  behavior = "auto";
  client_request_id = some "c";
  retry_original = some true;
  client_message_id = none;
  retry_of = some "r";
}

submit_run : submit decode encode submit_params ≡ ok retried
unfolding submit persistent_harness.Js.Values.entries_of get persistent_harness.Js.Texts.units
submit_run = refl

submit-IsComplete_example :
    IsComplete none (some "r") (some "c")
    × (is_none {A = String} (some "r") || str_eq "auto" "auto" ≡ true)
submit-IsComplete_example = submit-IsComplete decode encode submit_params retried submit_run

abbrev identity : String
identity = "0123456789abcdef0123456789abcdef0123456789abcdef0123456789abcdef"

abbrev endpoint_params : Option Json
endpoint_params =
    some
      (object (field "endpointIds" (array (item (text identity) (item (text identity) nil))) end))

endpoints_run : endpoints_in endpoint_params ≡ ok (identity ∷ [])
unfolding endpoints_in persistent_harness.Js.Values.entries_of get
    persistent_harness.Js.Values.items_of persistent_harness.Js.Texts.units
endpoints_run = refl

endpoints_in-IsApart_example : IsApart [] (identity ∷ []) × (1 ≤ 8)
endpoints_in-IsApart_example = endpoints_in-IsApart endpoint_params (identity ∷ []) endpoints_run

abbrev frame : Option Json
frame = some (
    object (
      field "version" (number 2 0) (
        field "id" (text "1") (
          field "type" (text "get_usage")
            (field "params" (object (field "windowMinutes" (number 5 0) end)) end)))))

abbrev request : Request
request = record {
  id = "1";
  type = "get_usage";
  params = object (field "windowMinutes" (number 5 0) end);
}

request_run : validate_request is_date is_date decode encode frame ≡ ok request
unfolding validate_request persistent_harness.Js.Values.entries_of get
    persistent_harness.Js.Texts.units persistent_harness.Protocol.Settings.usage_window
request_run = refl

validate_request_iff_example :
    (validate_request is_date is_date decode encode frame ≡ ok request)
    ↔ IsRequest (validator_of (validators is_date is_date decode encode)) frame request
validate_request_iff_example = validate_request_iff is_date is_date decode encode frame request

error_fits : 1 ≤ utf16_length "gone"
unfolding persistent_harness.Js.Texts.units
error_fits = omega arith

validate_server_frame-answers_example :
    (validate_server_frame (as_frame (response "1" "get_usage" none))
      ≡ ok (response "1" "get_usage" none))
    × (validate_server_frame (as_frame (error_response "1" "get_usage" "gone" "request_failed"))
        ≡ ok (error_response "1" "get_usage" "gone" "request_failed"))
validate_server_frame-answers_example =
    validate_server_frame-answers is_date is_date decode encode frame none "gone" "request_failed"
      request request_run error_fits

protocol_error_frame_iff_example :
    (validate_server_frame (as_frame (protocol_error_frame "unknown_request" "no such type"))
      ≡ ok (protocol_error_frame "unknown_request" "no such type"))
    ↔ (IsFit 64 "unknown_request" × IsFit 1024 "no such type")
protocol_error_frame_iff_example = protocol_error_frame_iff "unknown_request" "no such type"

abbrev extra : Entry
extra = entry "trace" (boolean true)

validate_request-refuted_example :
    validate_request is_date is_date decode encode
      (some (object (field "version" (number 3 0) (field "trace" (boolean true) end))))
    ≡ err Code.invalid_request
unfolding persistent_harness.Js.Values.entries_of member
validate_request-refuted_example =
    validate_request-refuted is_date is_date decode encode
      (field "version" (number 3 0) (field "trace" (boolean true) end)) extra (inr (inl refl)) refl
