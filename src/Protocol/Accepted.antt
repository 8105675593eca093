-- ===== src/Protocol/Accepted.antt =====
-- The frames that `validateRequest` of src/protocol.mjs makes requests of.
use persistent_harness.Prelude.{
  ◌≡◌, ◌↔◌, refl, ap, ◌∙◌, subst, String, Bool, true, Option, some, List, [], ◌∷◌, ok, >>=-elim,
  ok_inj, inl, inr, every, Option-cases, ◌==◌, ==_iff,
}
use mathlib.Core.Bool.{false≢true}
use persistent_harness.Cron.Text.{Text}
use persistent_harness.Js.Values.{Json, text, Entry, get, fields_in}
use persistent_harness.Inputs.Jpeg.{Bytes}
use persistent_harness.Protocol.Reading.{
  Code, whole_in, exact_record, string, require, member, has_key_in,
}
use persistent_harness.Protocol.Checked.{
  IsFit, exact_record-inv, require-inv, string-inv, string-fit,
}
use persistent_harness.Protocol.Requests.{
  Request, request_types, is_protocol_version, validator_of, validators, validate_request,
  Validator,
}

abbrev pub frame_keys : List String
frame_keys = "version" ∷ "id" ∷ "type" ∷ "params" ∷ []

-- What a frame and the request that it makes have to do with each other: the frame is an object with
-- no other keys than the four, its version is 2, its id and its type are those of the request, and the
-- parameters of the request are what the validator of the type makes of those of the frame.
pub record IsRequest (validate : String → Validator) (frame : Option Json) (r : Request)
    : Type 0 where
  pub fields : List Entry
  pub is_object : fields_in frame ≡ some fields
  pub has_known_keys : every (has_key_in frame_keys) fields ≡ true
  pub version : whole_in (get fields "version") ≡ some 2
  pub id : get fields "id" ≡ some (text r.id)
  pub id_fits : IsFit 128 r.id
  pub type : get fields "type" ≡ some (text r.type)
  pub type_fits : IsFit 64 r.type
  pub is_known : member request_types r.type ≡ true
  pub params : validate r.type (get fields "params") ≡ ok r.params

version-two : (v : Option Json) → is_protocol_version v ≡ true → whole_in v ≡ some 2
version-two v h = elim (Option-cases (whole_in v)) [
  | inl e ↦ absurd (false≢true (rw (e, is_protocol_version) at h))
  | inr (n, e) ↦
      let two : (n == 2) ≡ true = rw (e, is_protocol_version) at h in
      e ∙ ap some ((==_iff n 2).0 two)
]

two-version : (v : Option Json) → whole_in v ≡ some 2 → is_protocol_version v ≡ true
two-version v e = rw (e, is_protocol_version) refl

exact_record-known :
    (v : Option Json) (fields : List Entry)
    → fields_in v ≡ some fields
    → every (has_key_in frame_keys) fields ≡ true
    → exact_record v frame_keys ≡ ok fields
unfolding exact_record
exact_record-known v fields e known = rw e (rw known refl)

module _ (is_date is_iso : String → Bool) (decode : Text → Bytes) (encode : Bytes → Text) where
  abbrev validate : String → Validator
  validate = validator_of (validators is_date is_iso decode encode)

  pub accepted-IsRequest :
      (frame : Option Json) (r : Request)
      → validate_request is_date is_iso decode encode frame ≡ ok r
      → IsRequest validate frame r
  unfolding validate_request
  accepted-IsRequest frame r h = >>=-elim (exact_record frame frame_keys) _ r h λ value e h1.
      >>=-elim (require (is_protocol_version (get value "version")) Code.unsupported_version) _ r h1
        λ u g h2. >>=-elim (string (get value "id") 128) _ r h2 λ id i h3.
          >>=-elim (string (get value "type") 64) _ r h3 λ type t h4.
            >>=-elim (require (member request_types type) Code.unknown_request) _ r h4 λ w k h5.
              >>=-elim (validate type (get value "params")) _ r h5 λ params p h6.
                let (object_of, known) = exact_record-inv frame frame_keys value e in
                let (at_id, fit_id) = string-inv (get value "id") 128 id i in
                let (at_type, fit_type) = string-inv (get value "type") 64 type t in
                subst (IsRequest validate frame) (ok_inj h6) (record {
                  fields = value;
                  is_object = object_of;
                  has_known_keys = known;
                  version = version-two (get value "version") (require-inv _ _ u g);
                  id = at_id;
                  id_fits = fit_id;
                  type = at_type;
                  type_fits = fit_type;
                  is_known = require-inv _ _ w k;
                  params = p;
                })

  IsRequest-accepted :
      (frame : Option Json) (r : Request)
      → IsRequest validate frame r
      → validate_request is_date is_iso decode encode frame ≡ ok r
  unfolding validate_request
  IsRequest-accepted frame r q =
      let id : string (get q.fields "id") 128 ≡ ok r.id =
        ap (λ v. string v 128) q.id ∙ string-fit 128 r.id q.id_fits in
      let type : string (get q.fields "type") 64 ≡ ok r.type =
        ap (λ v. string v 64) q.type ∙ string-fit 64 r.type q.type_fits in
      rw (exact_record-known frame q.fields q.is_object q.has_known_keys) (
        rw (two-version (get q.fields "version") q.version)
          (rw id (rw type (rw q.is_known (rw q.params refl)))))

  -- A frame makes a request just where it is an object with no other keys than the four and of version
  -- 2, its id is the request's and has 1 to 128 units, its type is the request's, has 1 to 64 units and
  -- is known, and the validator of that type makes the request's parameters of those of the frame.
  pub validate_request_iff :
      (frame : Option Json) (r : Request)
      → (validate_request is_date is_iso decode encode frame ≡ ok r) ↔ IsRequest validate frame r
  validate_request_iff frame r = (accepted-IsRequest frame r, IsRequest-accepted frame r)
