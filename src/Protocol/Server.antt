-- ===== src/Protocol/Server.antt =====
-- The frames of the server, src/protocol.mjs from line 449 on.
use persistent_harness.Prelude.{
  String, true, false, Option, none, some, List, [], ◌∷◌, str_eq, leb, if◌then◌else◌, ok, err,
  ◌>>=◌,
}
use persistent_harness.Js.Values.{Json, boolean, text, object, Entry, get, text_in, boolean_in}
use persistent_harness.Js.Texts.{utf16_length}
use persistent_harness.Protocol.Reading.{
  Reading, ◌>>◌, read_record, string, entry, given, whole_number, as_fields,
}
use persistent_harness.Protocol.Reading.{require, unsupported_version, invalid_response}
use persistent_harness.Protocol.Requests.{is_protocol_version}

-- The `ok` of a response, and with a failure its error.
unfoldable pub check_response : List Entry → Reading (Unit {0})
unfolding string
check_response value = do
  id ← string (get value "id") 128
  type ← string (get value "requestType") 64
  elim (boolean_in (get value "ok")) [
    | none ↦ err invalid_response
    | some true ↦ ok tt
    | some false ↦ elim (text_in (get value "error")) [
      | none ↦ err invalid_response
      | some s ↦ require (leb 1 (utf16_length s)) invalid_response
    ]
  ]

unfoldable check_event : List Entry → Reading (Unit {0})
unfolding string
check_event value = string (get value "event") 64 >>= λ s. ok tt

unfoldable pub check_protocol_error : List Entry → Reading (Unit {0})
unfolding string
check_protocol_error value = do
  code ← string (get value "code") 64
  message ← string (get value "message") 1024
  ok tt

abbrev type_of : List Entry → String
type_of value = elim (text_in (get value "type")) [ none ↦ "" | some s ↦ s ]

unfoldable check_type : String → List Entry → Reading (Unit {0})
unfolding check_response check_event check_protocol_error
check_type type value =
    if str_eq type "response"
    then check_response value
    else if str_eq type "event"
    then check_event value
    else if str_eq type "protocol_error"
    then check_protocol_error value
    else err invalid_response

-- The frame itself, where it is one of the server's.
unfoldable pub validate_server_frame : Option Json → Reading (List Entry)
unfolding check_type
validate_server_frame frame = do
  value ← read_record frame
  require (is_protocol_version (get value "version")) unsupported_version
  check_type (type_of value) value
  ok value

-- The frames that the server makes. A field whose value is not there is left out when a frame is
-- encoded.
abbrev pub response : String → String → Option Json → List Entry
response id request_type data_of =
    entry "version" (whole_number 2)
    ∷ entry "type" (text "response")
    ∷ entry "id" (text id)
    ∷ entry "requestType" (text request_type)
    ∷ entry "ok" (boolean true)
    ∷ given "data" data_of

abbrev pub error_response : String → String → String → String → List Entry
error_response id request_type error code =
    entry "version" (whole_number 2)
    ∷ entry "type" (text "response")
    ∷ entry "id" (text id)
    ∷ entry "requestType" (text request_type)
    ∷ entry "ok" (boolean false)
    ∷ entry "code" (text code)
    ∷ entry "error" (text error)
    ∷ []

-- The frame of a `ProtocolError` with this code and message.
abbrev pub protocol_error_frame : String → String → List Entry
protocol_error_frame code message =
    entry "version" (whole_number 2)
    ∷ entry "type" (text "protocol_error")
    ∷ entry "code" (text code)
    ∷ entry "message" (text message)
    ∷ []

abbrev event : String → Json → List Entry
event name data_of =
    entry "version" (whole_number 2)
    ∷ entry "type" (text "event")
    ∷ entry "event" (text name)
    ∷ entry "data" data_of
    ∷ []

-- The object that a frame is.
unfoldable pub as_frame : List Entry → Option Json
unfolding as_fields
as_frame entries = some (object (as_fields entries))
