-- ===== src/Protocol/Submissions.antt =====
-- What `submit` of src/protocol.mjs lets through.
use persistent_harness.Prelude.{
  ◌*◌, ◌≤◌, ◌≡◌, refl, subst, arith, String, Bool, true, false, ◌&&◌, ◌||◌, Option, none, some,
  List, str_eq, leb, is_some, is_none, ok, >>=-elim, ok_inj, inl, inr, Bool-cases,
}
use persistent_harness.Cron.Text.{Text}
use persistent_harness.Js.Texts.{byte_length}
use persistent_harness.Js.Values.{Json, Entry, get, text_in}
use persistent_harness.Inputs.Jpeg.{Bytes}
use persistent_harness.Inputs.Images.{Image, normalize_input_images}
use persistent_harness.Inputs.Locations.{normalize_input_location}
use persistent_harness.Protocol.Reading.{
  check, taken, string, optionally, bool, or_else, one_of, default_text,
}
use persistent_harness.Protocol.Checked.{require-inv}
use persistent_harness.Protocol.Sessions.{session_id_param}
use persistent_harness.Protocol.Submitting.{
  Message, Submitted, attached, behaviors, has_text, submit_keys, original_only, new_message,
  message_in, submit,
}

-- A message that is new has at most 32768 bytes, and no text only with images; where there is none,
-- what is retried and the request are named.
abbrev pub IsComplete : Option Message → Option String → Option String → Type 0
IsComplete (some m) retry_of client_request_id =
    (byte_length m.body ≤ 32 * 1024) × (has_text m.images m.body ≡ true)
IsComplete none retry_of client_request_id =
    (is_some retry_of ≡ true) × (is_some client_request_id ≡ true)

original_only-IsComplete :
    (r c : Option String) (value : List Entry) (m : Option Message)
    → original_only r c value ≡ ok m
    → IsComplete m r c
original_only-IsComplete (some r) (some c) value m h =
    >>=-elim
      (check (
        is_none (get value "message")
        && is_none (get value "images")
        && is_none (get value "location")))
      _ m h λ _ _ h1. subst (λ x. IsComplete x (some r) (some c)) (ok_inj h1) (refl, refl)
original_only-IsComplete (some r) none value m h = cc
original_only-IsComplete none c value m h = cc

module _ (decode : Text → Bytes) (encode : Bytes → Text) where
  new_message-IsComplete :
      (value : List Entry) (r c : Option String) (m : Option Message)
      → new_message decode encode value ≡ ok m
      → IsComplete m r c
  unfolding new_message
  new_message-IsComplete value r c m h =
      >>=-elim (attached (normalize_input_images decode encode (get value "images"))) _ m h
        λ images _ h1.
          >>=-elim (attached (normalize_input_location (get value "location"))) _ m h1
            λ location _ h2. >>=-elim (taken (text_in (get value "message"))) _ m h2 λ body _ h3.
              >>=-elim (check (leb (byte_length body) (32 * 1024) && has_text images body)) _ m h3
                λ u g h4.
                  subst (λ x. IsComplete x r c) (ok_inj h4)
                    (
                      short body images (require-inv _ _ u g),
                      full body images (require-inv _ _ u g),
                    )
    where
      short :
          (body : String) (images : List Image)
          → leb (byte_length body) (32 * 1024) && has_text images body ≡ true
          → byte_length body ≤ 32 * 1024
      short body images g = ground arith

      full :
          (body : String) (images : List Image)
          → leb (byte_length body) (32 * 1024) && has_text images body ≡ true
          → has_text images body ≡ true
      full body images g = elim (Bool-cases (leb (byte_length body) (32 * 1024))) [
        | inl e ↦ rw e at g
        | inr e ↦ cc
      ]

  message_in-IsComplete :
      (b : Bool) (r c : Option String) (value : List Entry) (m : Option Message)
      → message_in decode encode b r c value ≡ ok m
      → IsComplete m r c
  unfolding message_in
  message_in-IsComplete true r c value m h = original_only-IsComplete r c value m h
  message_in-IsComplete false r c value m h = new_message-IsComplete value r c m h

  -- An input that is accepted is complete, and what retries another goes the usual way, `auto`.
  pub submit-IsComplete :
      (params : Option Json) (s : Submitted)
      → submit decode encode params ≡ ok s
      → IsComplete s.message s.retry_of s.client_request_id
        × (is_none s.retry_of || str_eq s.behavior "auto" ≡ true)
  unfolding submit
  submit-IsComplete params s h = >>=-elim (session_id_param params submit_keys) _ s h λ p _ h1.
      >>=-elim (optionally (get p.value "retryOf") (λ v. string v 128)) _ s h1 λ r _ h2.
        >>=-elim (optionally (get p.value "clientRequestId") (λ v. string v 128)) _ s h2 λ c _ h3.
          >>=-elim (optionally (get p.value "retryOriginal") bool) _ s h3 λ o _ h4.
            >>=-elim (message_in decode encode (or_else o false) r c p.value) _ s h4 λ m e h5.
              >>=-elim (one_of behaviors (default_text "auto" (get p.value "behavior"))) _ s h5
                λ b _ h6. >>=-elim (check (is_none r || str_eq b "auto")) _ s h6 λ u g h7.
                  >>=-elim (optionally (get p.value "clientMessageId") (λ v. string v 128)) _ s h7
                    λ i _ h8.
                      subst
                        (λ x.
                          IsComplete x.message x.retry_of x.client_request_id
                          × (is_none x.retry_of || str_eq x.behavior "auto" ≡ true))
                        (ok_inj h8)
                        (
                          message_in-IsComplete (or_else o false) r c p.value m e,
                          require-inv _ _ u g,
                        )
