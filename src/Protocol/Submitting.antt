-- ===== src/Protocol/Submitting.antt =====
-- `submit` of src/protocol.mjs.
use persistent_harness.Prelude.{
  ◌*◌, String, Bool, true, false, ◌&&◌, ◌||◌, Option, none, some, List, [], ◌∷◌, ◌++◌, str_eq, leb,
  is_some, is_none, length, ok, err, ◌>>=◌,
}
use persistent_harness.Js.Values.{Json, null, text, array, object, Entry, get, text_in}
use persistent_harness.Js.Texts.{units, byte_length}
use persistent_harness.Cron.Text.{Text}
use persistent_harness.Protocol.Reading.{
  invalid_request, Reading, ◌>>◌, check, taken, member, string, bool, optionally, or_else, one_of,
  default_text, entry, given, whole_number, as_text, as_boolean, as_items, as_fields,
}
use persistent_harness.Inputs.Locations.{Location, Input, normalize_input_location}
use persistent_harness.Inputs.Jpeg.{Bytes}
use persistent_harness.Inputs.Images.{Image, as_image, normalize_input_images}
use persistent_harness.Protocol.Sessions.{session_id_param}

-- An error of what is attached is an invalid request.
abbrev pub attached : {A : Type 0} → Input A → Reading A
attached (ok a) = ok a
attached (err e) = err invalid_request

pub record Message : Type 0 where
  pub body : String
  pub images : List Image
  pub location : Option Location

-- A message that is new, or the retry of one that is stored.
pub record Submitted : Type 0 where
  pub session_id : String
  pub message : Option Message
  pub behavior : String
  pub client_request_id : Option String
  pub retry_original : Option Bool
  pub client_message_id : Option String
  pub retry_of : Option String

abbrev pub behaviors : List String
behaviors = "auto" ∷ "steer" ∷ "follow_up" ∷ []

abbrev pub has_text : List Image → String → Bool
has_text images s = leb 1 (length (units s)) || leb 1 (length images)

abbrev pub submit_keys : List String
submit_keys =
    "message" ∷ "images" ∷ "location" ∷ "behavior" ∷ "clientRequestId" ∷ "clientMessageId"
    ∷ "retryOf" ∷ "retryOriginal" ∷ []

-- With an original that is retried, nothing of the message is given again.
abbrev pub original_only : Option String → Option String → List Entry → Reading (Option Message)
original_only retry_of client_request_id value = do
  check (is_some retry_of)
  check (is_some client_request_id)
  check (
      is_none (get value "message")
      && is_none (get value "images")
      && is_none (get value "location"))
  ok none

-- `decode` and `encode` are those of `Buffer`, from and to "base64".
module _ (decode : Text → Bytes) (encode : Bytes → Text) where
  unfoldable pub new_message : List Entry → Reading (Option Message)
  unfolding normalize_input_location normalize_input_images
  new_message value = do
    images ← attached (normalize_input_images decode encode (get value "images"))
    location ← attached (normalize_input_location (get value "location"))
    body ← taken (text_in (get value "message"))
    check (leb (byte_length body) (32 * 1024) && has_text images body)
    ok (some (record { body = body; images = images; location = location }))

  unfoldable pub message_in :
      Bool → Option String → Option String → List Entry → Reading (Option Message)
  unfolding new_message
  message_in true retry_of client_request_id value = original_only retry_of client_request_id value
  message_in false retry_of client_request_id value = new_message value

  unfoldable pub submit : Option Json → Reading Submitted
  unfolding session_id_param string member new_message message_in
  submit params = do
    p ← session_id_param params submit_keys
    retry_of ← optionally (get p.value "retryOf") (λ v. string v 128)
    client_request_id ← optionally (get p.value "clientRequestId") (λ v. string v 128)
    retry_original ← optionally (get p.value "retryOriginal") bool
    message ← message_in (or_else retry_original false) retry_of client_request_id p.value
    behavior ← one_of behaviors (default_text "auto" (get p.value "behavior"))
    check (is_none retry_of || str_eq behavior "auto")
    client_message_id ← optionally (get p.value "clientMessageId") (λ v. string v 128)
    ok (record {
      session_id = p.session_id;
      message = message;
      behavior = behavior;
      client_request_id = client_request_id;
      retry_original = retry_original;
      client_message_id = client_message_id;
      retry_of = retry_of;
    })

abbrev image_values : List Image → List Json
image_values [] = []
image_values (i ∷ is) = as_image i ∷ image_values is

unfoldable as_location : Option Location → Option Json
unfolding as_fields
as_location none = none
as_location (some l) = some (
    object (
      as_fields (
        entry "latitude" l.latitude
        ∷ entry "longitude" l.longitude
        ∷ entry "accuracy" l.accuracy
        ∷ entry "timestamp" (whole_number l.timestamp)
        ∷ [])))

unfoldable message_entries : Option Message → List Entry
unfolding as_items as_location
message_entries none = []
message_entries (some m) =
    entry "message" (text m.body)
    ∷ entry "images" (array (as_items (image_values m.images)))
    ∷ given "location" (as_location m.location)

unfoldable pub submitted_entries : Submitted → List Entry
unfolding as_items as_fields message_entries
submitted_entries s =
    entry "sessionId" (text s.session_id) ∷ message_entries s.message
    ++ entry "behavior" (text s.behavior)
      ∷ entry "clientRequestId" (or_else (as_text s.client_request_id) null)
      ∷ given "retryOriginal" (as_boolean s.retry_original)
    ++ given "clientMessageId" (as_text s.client_message_id)
    ++ entry "retryOf" (or_else (as_text s.retry_of) null) ∷ []
