-- ===== src/Protocol/Answered.antt =====
-- The frames of the server as a client reads them, src/protocol.mjs.
use persistent_harness.Prelude.{
  ◌≤◌, ◌≡◌, ◌↔◌, refl, sym, ap, subst, arith, String, Bool, false, Option, none, some, List, [],
  ◌∷◌, ok, err, >>=-elim, inl, inr, IsIn, every, Bool-cases,
}
use persistent_harness.Cron.Text.{Text}
use persistent_harness.Js.Texts.{utf16_length}
use persistent_harness.Js.Values.{Json, text, object, Entry, Fields, get, entries_of}
use persistent_harness.Inputs.Jpeg.{Bytes}
use persistent_harness.Protocol.Reading.{Code, exact_record, string, member, has_key_in, as_fields}
use persistent_harness.Protocol.Checked.{IsFit, string-fit, string-IsFit}
use persistent_harness.Protocol.Requests.{Request, validate_request}
use persistent_harness.Protocol.Accepted.{frame_keys, accepted-IsRequest}
use persistent_harness.Protocol.Server.{
  validate_server_frame, check_response, check_protocol_error, response, error_response,
  protocol_error_frame, as_frame,
}

entries-as_fields : (es : List Entry) → entries_of (as_fields es) ≡ es
unfolding entries_of as_fields
entries-as_fields [] = refl
entries-as_fields (e ∷ es) = ap (λ r. e ∷ r) (entries-as_fields es)

-- A response is accepted as it is, with data or without.
response-accepted :
    (id type : String) (data_of : Option Json)
    → IsFit 128 id
    → IsFit 64 type
    → validate_server_frame (as_frame (response id type data_of)) ≡ ok (response id type data_of)
unfolding validate_server_frame as_frame get entries_of check_response as_fields
response-accepted id type none fi ft = rw (string-fit 128 id fi) (rw (string-fit 64 type ft) refl)
response-accepted id type (some d) fi ft =
    rw (string-fit 128 id fi) (rw (string-fit 64 type ft) refl)

error_response-accepted :
    (id type error code : String)
    → IsFit 128 id
    → IsFit 64 type
    → 1 ≤ utf16_length error
    → validate_server_frame (as_frame (error_response id type error code))
      ≡ ok (error_response id type error code)
unfolding validate_server_frame as_frame get entries_of check_response as_fields
error_response-accepted id type error code fi ft e =
    rw (string-fit 128 id fi) (rw (string-fit 64 type ft) (ground arith))

module _ (is_date is_iso : String → Bool) (decode : Text → Bytes) (encode : Bytes → Text) where
  -- The answers to a request that is accepted are themselves accepted as frames of the server: the
  -- response, whatever its data, and the response of a failure, whatever its code, whose error is not
  -- empty.
  pub validate_server_frame-answers :
      (frame data_of : Option Json) (error code : String) (r : Request)
      → validate_request is_date is_iso decode encode frame ≡ ok r
      → 1 ≤ utf16_length error
      → (validate_server_frame (as_frame (response r.id r.type data_of))
          ≡ ok (response r.id r.type data_of))
        × (validate_server_frame (as_frame (error_response r.id r.type error code))
            ≡ ok (error_response r.id r.type error code))
  validate_server_frame-answers frame data_of error code r h e =
      let q = accepted-IsRequest is_date is_iso decode encode frame r h in
      (
        response-accepted r.id r.type data_of q.id_fits q.type_fits,
        error_response-accepted r.id r.type error code q.id_fits q.type_fits e,
      )

-- The frame that tells a client of an error of the protocol is accepted just where its code has 1 to 64
-- units and its message 1 to 1024.
pub protocol_error_frame_iff :
    (code message : String)
    → (validate_server_frame (as_frame (protocol_error_frame code message))
        ≡ ok (protocol_error_frame code message))
      ↔ (IsFit 64 code × IsFit 1024 message)
unfolding validate_server_frame as_frame get entries_of check_protocol_error as_fields
protocol_error_frame_iff code message = (to, back)
  where
    to :
        validate_server_frame (as_frame (protocol_error_frame code message))
          ≡ ok (protocol_error_frame code message)
        → IsFit 64 code × IsFit 1024 message
    to h = >>=-elim (check_protocol_error (protocol_error_frame code message)) _ _ h λ u c _.
        >>=-elim (string (some (text code)) 64) _ u c λ s es c1.
          >>=-elim (string (some (text message)) 1024) _ u c1
            λ m em _. (string-IsFit 64 code s es, string-IsFit 1024 message m em)

    back :
        (f : IsFit 64 code × IsFit 1024 message)
        → validate_server_frame (as_frame (protocol_error_frame code message))
          ≡ ok (protocol_error_frame code message)
    back (fc, fm) = rw (string-fit 64 code fc) (rw (string-fit 1024 message fm) refl)

every-refuted :
    (keys : List String) (es : List Entry) (e : Entry)
    → IsIn e es
    → member keys e.key ≡ false
    → every (has_key_in keys) es ≡ false
every-refuted keys [] e i h = absurd i
every-refuted keys (f ∷ es) e (inl same) h =
    rw (subst (λ x. member keys x.key ≡ false) (sym same) h) refl
every-refuted keys (f ∷ es) e (inr i) h = elim (Bool-cases (has_key_in keys f)) [
  | inl g ↦ rw (g, every-refuted keys es e i h) refl
  | inr g ↦ rw g refl
]

-- An object with a key that is not one of those given is an invalid request.
exact_record-refuted :
    (keys : List String) (fs : Fields) (e : Entry)
    → IsIn e (entries_of fs)
    → member keys e.key ≡ false
    → exact_record (some (object fs)) keys ≡ err Code.invalid_request
unfolding exact_record
exact_record-refuted keys fs e i h = rw (every-refuted keys (entries_of fs) e i h) refl

-- A frame with a key that is not one of the four is an invalid request, whatever its version, its type
-- and its parameters.
pub validate_request-refuted :
    (is_date is_iso : String → Bool) (decode : Text → Bytes) (encode : Bytes → Text) (fs : Fields)
    (e : Entry)
    → IsIn e (entries_of fs)
    → member frame_keys e.key ≡ false
    → validate_request is_date is_iso decode encode (some (object fs)) ≡ err Code.invalid_request
unfolding validate_request
validate_request-refuted is_date is_iso decode encode fs e i h =
    rw (exact_record-refuted frame_keys fs e i h) refl
