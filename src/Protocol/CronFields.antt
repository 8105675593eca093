-- ===== src/Protocol/CronFields.antt =====
-- The schedules, models and checks that `cronJob` of src/protocol.mjs reads.
use persistent_harness.Prelude.{
  ◌*◌, String, ◌&&◌, ◌||◌, Option, none, some, List, [], ◌∷◌, str_eq, is_some, is_none,
  if◌then◌else◌, ok, err, ◌>>=◌,
}
use persistent_harness.Js.Values.{Json, null, text, object, Entry, get, present}
use persistent_harness.Protocol.Reading.{
  invalid_request, Reading, ◌>>◌, check, member, read_record, exact, exact_record, string, utf8,
  integer, optionally, or_else, nullable, entry, given, whole_number, as_text, as_number, as_fields,
}
use persistent_harness.Protocol.Settings.{thinking_level}

unfoldable timezone_in : List Entry → Reading (Option String)
unfolding string
timezone_in fields = optionally (get fields "timezone") (λ v. string v 128)

unfoldable schedule_at : List Entry → Option String → Reading (List Entry)
unfolding string member
schedule_at fields timezone = do
  exact fields ("kind" ∷ "at" ∷ "timezone" ∷ [])
  at ← string (get fields "at") 128
  ok (entry "kind" (text "at") ∷ entry "at" (text at) ∷ given "timezone" (as_text timezone))

unfoldable schedule_every : List Entry → Option String → Reading (List Entry)
unfolding integer member
schedule_every fields timezone = do
  exact fields ("kind" ∷ "intervalSeconds" ∷ "timezone" ∷ [])
  seconds ← integer (get fields "intervalSeconds") 1 (366 * 24 * 60 * 60)
  ok (
      entry "kind" (text "every")
      ∷ entry "intervalSeconds" (whole_number seconds)
      ∷ given "timezone" (as_text timezone))

unfoldable schedule_cron : List Entry → Option String → Reading (List Entry)
unfolding string member
schedule_cron fields timezone = do
  exact fields ("kind" ∷ "expression" ∷ "timezone" ∷ [])
  expression ← string (get fields "expression") 256
  ok (
      entry "kind" (text "cron")
      ∷ entry "expression" (text expression)
      ∷ given "timezone" (as_text timezone))

unfoldable pub cron_schedule : Option Json → Reading (List Entry)
unfolding string schedule_at schedule_every schedule_cron timezone_in
cron_schedule v = do
  fields ← read_record v
  kind ← string (get fields "kind") 16
  timezone ← timezone_in fields
  if str_eq kind "at"
      then schedule_at fields timezone
      else if str_eq kind "every"
      then schedule_every fields timezone
      else if str_eq kind "cron"
      then schedule_cron fields timezone
      else err invalid_request

-- A provider and a model come together or not at all; a value of null for both clears them.
unfoldable pub provider_and_model : Option Json → Option Json → Reading (List Entry)
unfolding string
provider_and_model none none = ok []
provider_and_model none (some m) = err invalid_request
provider_and_model (some p) none = err invalid_request
provider_and_model (some p) (some m) = do
  provider ← optionally (present (some p)) (λ v. string v 128)
  model ← optionally (present (some m)) (λ v. string v 256)
  check (is_some provider && is_some model || is_none provider && is_none model)
  ok (
      entry "provider" (or_else (as_text provider) null)
      ∷ entry "model" (or_else (as_text model) null)
      ∷ [])

abbrev pub optional_provider_model : List Entry → Reading (List Entry)
optional_provider_model value = provider_and_model (get value "provider") (get value "model")

unfoldable pub optional_thinking_level : Option Json → Reading (List Entry)
unfolding thinking_level
optional_thinking_level none = ok []
optional_thinking_level (some v) = do
  level ← optionally (present (some v)) thinking_level
  ok (entry "thinkingLevel" (or_else (as_text level) null) ∷ [])

unfoldable check_command : Option Json → Reading (List Entry)
unfolding exact_record utf8 integer
check_command v = do
  fields ← exact_record v ("command" ∷ "timeoutSeconds" ∷ [])
  command ← utf8 (get fields "command") 4096
  timeout ← optionally (get fields "timeoutSeconds") (λ w. integer w 1 120)
  ok (entry "command" (text command) ∷ given "timeoutSeconds" (as_number timeout))

unfoldable pub cron_check : Option Json → Reading (List Entry)
unfolding check_command as_fields
cron_check none = ok []
cron_check (some v) = do
  command ← nullable (some v) check_command
  elim command [
    | none ↦ ok (entry "check" null ∷ [])
    | some fields ↦ ok (entry "check" (object (as_fields fields)) ∷ [])
  ]
