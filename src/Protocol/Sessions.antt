-- ===== src/Protocol/Sessions.antt =====
-- The validators of src/protocol.mjs that name a session or an actor.
use persistent_harness.Prelude.{
  ℕ, String, Bool, true, false, ◌&&◌, ◌||◌, Option, none, some, List, [], ◌∷◌, ◌++◌, leb, ◌==◌,
  is_some, is_none, length, every, ok, err, ◌>>=◌,
}
use persistent_harness.Js.Values.{Json, null, boolean, text, object, Entry, get, present}
use persistent_harness.Js.Texts.{units, is_alphanumeric, is_hex}
use persistent_harness.Cron.Text.{Text}
use persistent_harness.Protocol.Reading.{
  invalid_request, Reading, ◌>>◌, check, exact_record, string, bool, integer, optionally, or_else,
  nullable, entry, given, whole_number, as_text, as_number, as_fields, safe_max,
}

-- `empty`.
unfoldable pub no_params : Option Json → Reading (List Entry)
unfolding exact_record
no_params params = exact_record params []

unfoldable pub actor_registration : Option Json → Reading (List Entry)
unfolding exact_record string integer
actor_registration params = do
  value ← exact_record params (
      "sessionId" ∷ "sessionFile" ∷ "cwd" ∷ "repositoryRoot" ∷ "actorToken" ∷ "actorGeneration"
      ∷ [])
  session_id ← string (get value "sessionId") 128
  session_file ← string (get value "sessionFile") 4096
  cwd ← string (get value "cwd") 4096
  root ← nullable (get value "repositoryRoot") (λ v. string v 4096)
  token ← string (get value "actorToken") 128
  generation ← integer (get value "actorGeneration") 1 1000000000
  ok (
      entry "sessionId" (text session_id)
      ∷ entry "sessionFile" (text session_file)
      ∷ entry "cwd" (text cwd)
      ∷ entry "repositoryRoot" (or_else (as_text root) null)
      ∷ entry "actorToken" (text token)
      ∷ entry "actorGeneration" (whole_number generation)
      ∷ [])

unfoldable pub client_registration : Option Json → Reading (List Entry)
unfolding exact_record string
client_registration params = do
  value ← exact_record params ("clientInstanceId" ∷ [])
  id ← string (get value "clientInstanceId") 128
  ok (entry "clientInstanceId" (text id) ∷ [])

-- The fields of the parameters and the session that they name.
pub record SessionParam : Type 0 where
  pub value : List Entry
  pub session_id : String

unfoldable pub session_id_param : Option Json → List String → Reading SessionParam
unfolding exact_record string
session_id_param params extra = do
  value ← exact_record params ("sessionId" ∷ extra)
  id ← string (get value "sessionId") 128
  ok (record { value = value; session_id = id })

abbrev pub session_entry : SessionParam → Entry
session_entry p = entry "sessionId" (text p.session_id)

-- What the handlers of `sessionIdParam(p)` get: the parameters are passed on with the id.
unfoldable pub session_with_value : Option Json → Reading (List Entry)
unfolding session_id_param as_fields
session_with_value params = do
  p ← session_id_param params []
  ok (entry "value" (object (as_fields p.value)) ∷ session_entry p ∷ [])

unfoldable pub session_only : Option Json → Reading (List Entry)
unfolding session_id_param
session_only params = do p ← session_id_param params []; ok (session_entry p ∷ [])

unfoldable pub child_selector : Option Json → Reading (List Entry)
unfolding exact_record string
child_selector params = do
  value ← exact_record params ("selector" ∷ [])
  selector ← string (get value "selector") 256
  ok (entry "selector" (text selector) ∷ [])

unfoldable pub session_name : Option Json → Reading (List Entry)
unfolding exact_record string
session_name params = do
  value ← exact_record params ("name" ∷ [])
  name ← optionally (present (get value "name")) (λ v. string v 256)
  ok (entry "name" (or_else (as_text name) null) ∷ [])

unfoldable pub activity : Option Json → Reading (List Entry)
unfolding exact_record
activity params = do
  value ← exact_record params ("streaming" ∷ [])
  streaming ← bool (get value "streaming")
  ok (entry "streaming" (boolean streaming) ∷ [])

unfoldable pub message_ack : Option Json → Reading (List Entry)
unfolding exact_record string
message_ack params = do
  value ← exact_record params ("messageId" ∷ [])
  id ← string (get value "messageId") 128
  ok (entry "messageId" (text id) ∷ [])

unfoldable pub create_root : Option Json → Reading (List Entry)
unfolding exact_record string
create_root params = do
  value ←
      exact_record params
        ("cwd" ∷ "repositoryRoot" ∷ "name" ∷ "provider" ∷ "model" ∷ "thinkingLevel" ∷ [])
  provider ← optionally (present (get value "provider")) (λ v. string v 128)
  model ← optionally (present (get value "model")) (λ v. string v 256)
  check (is_some provider && is_some model || is_none provider && is_none model)
  cwd ← string (get value "cwd") 4096
  root ← optionally (present (get value "repositoryRoot")) (λ v. string v 4096)
  name ← optionally (present (get value "name")) (λ v. string v 256)
  level ← optionally (present (get value "thinkingLevel")) (λ v. string v 16)
  ok (
      entry "cwd" (text cwd)
      ∷ entry "repositoryRoot" (or_else (as_text root) null)
      ∷ entry "name" (or_else (as_text name) null)
      ∷ entry "provider" (or_else (as_text provider) null)
      ∷ entry "model" (or_else (as_text model) null)
      ∷ entry "thinkingLevel" (or_else (as_text level) null)
      ∷ [])

unfoldable pub rename_session : Option Json → Reading (List Entry)
unfolding session_id_param string
rename_session params = do
  p ← session_id_param params ("name" ∷ [])
  name ← string (get p.value "name") 256
  ok (session_entry p ∷ entry "name" (text name) ∷ [])

unfoldable pub subscribe : Option Json → Reading (List Entry)
unfolding exact_record string
subscribe params = do
  value ← exact_record params ("selector" ∷ "passive" ∷ [])
  selector ← string (get value "selector") 256
  passive ← optionally (get value "passive") bool
  ok (entry "selector" (text selector) ∷ entry "passive" (boolean (or_else passive false)) ∷ [])

abbrev is_cursor_sign : ℕ → Bool
is_cursor_sign c = is_alphanumeric c || c == b'.' || c == b'_' || c == b'-'

-- `/^[A-Za-z0-9][A-Za-z0-9._-]{0,127}$/`.
is_generation : Text → Bool
is_generation [] = false
is_generation (c ∷ cs) = is_alphanumeric c && leb (length cs) 127 && every is_cursor_sign cs

unfoldable pub fits : Option String → Bool
unfolding is_generation
fits none = true
fits (some s) = is_generation (units s)

-- The place in the output of a root that a client goes on from.
pub data Cursor : Type 0 where
  invalid whole_output : Cursor
  after : String → ℕ → Cursor

abbrev pub cursor_of : Bool → Option String → Option ℕ → Reading Cursor
cursor_of true none none = ok invalid
cursor_of true none (some n) = err invalid_request
cursor_of true (some g) n = err invalid_request
cursor_of false none none = ok whole_output
cursor_of false (some g) (some n) = ok (after g n)
cursor_of false none (some n) = err invalid_request
cursor_of false (some g) none = err invalid_request

unfoldable pub subscribe_root_output : Option Json → Reading Cursor
unfolding exact_record string integer fits
subscribe_root_output params = do
  value ← exact_record params ("generation" ∷ "afterSeq" ∷ "invalidCursor" ∷ [])
  generation ← optionally (get value "generation") (λ v. string v 128)
  after_seq ← optionally (get value "afterSeq") (λ v. integer v 0 safe_max)
  invalid_cursor ← optionally (get value "invalidCursor") bool
  check (fits generation)
  cursor_of (or_else invalid_cursor false) generation after_seq

-- The cursor as the value that the handler gets.
unfoldable pub cursor_value : Cursor → Json
unfolding as_fields
cursor_value invalid = object (as_fields (entry "invalid" (boolean true) ∷ []))
cursor_value whole_output = null
cursor_value (after g n) =
    object (as_fields (entry "generation" (text g) ∷ entry "afterSeq" (whole_number n) ∷ []))

abbrev is_url_sign : ℕ → Bool
is_url_sign c = is_alphanumeric c || c == b'_' || c == b'-'

abbrev is_page : Option String → Bool
is_page none = true
is_page (some s) = every is_url_sign (units s)

unfoldable pub visible_messages : Option Json → Reading (List Entry)
unfolding session_id_param string integer
visible_messages params = do
  p ← session_id_param params ("before" ∷ "limit" ∷ [])
  before ← optionally (get p.value "before") (λ v. string v 2048)
  check (is_page before)
  limit ← optionally (get p.value "limit") (λ v. integer v 1 100)
  ok (session_entry p ∷ given "before" (as_text before) ++ given "limit" (as_number limit))

unfoldable pub visible_image : Option Json → Reading (List Entry)
unfolding session_id_param string integer
visible_image params = do
  p ← session_id_param params ("entryId" ∷ "index" ∷ [])
  entry_id ← string (get p.value "entryId") 128
  index ← integer (get p.value "index") 0 3
  ok (session_entry p ∷ entry "entryId" (text entry_id) ∷ entry "index" (whole_number index) ∷ [])

unfoldable pub entries_request : Option Json → Reading (List Entry)
unfolding session_id_param string
entries_request params = do
  p ← session_id_param params ("since" ∷ [])
  since ← optionally (present (get p.value "since")) (λ v. string v 128)
  ok (session_entry p ∷ entry "since" (or_else (as_text since) null) ∷ [])

unfoldable pub provision_skill_runtime : Option Json → Reading (List Entry)
unfolding exact_record string
provision_skill_runtime params = do
  value ← exact_record params ("fingerprint" ∷ [])
  fingerprint ← string (get value "fingerprint") 64
  check (length (units fingerprint) == 64 && every is_hex (units fingerprint))
  ok (entry "fingerprint" (text fingerprint) ∷ [])
