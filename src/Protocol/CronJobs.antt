-- ===== src/Protocol/CronJobs.antt =====
-- `cronJob` of src/protocol.mjs.
use persistent_harness.Prelude.{
  ℕ, ◌*◌, String, Bool, false, not, Option, none, some, List, [], ◌∷◌, ◌++◌, str_eq, is_none,
  if◌then◌else◌, every, ok, err, ◌>>=◌,
}
use persistent_harness.Js.Values.{Json, null, boolean, text, object, Entry, get, present}
use persistent_harness.Protocol.Reading.{
  invalid_request, Reading, ◌>>◌, check, member, read_record, exact, string, utf8, bool, integer,
  optionally, or_else, nullable, one_of, default_text, entry, given, whole_number, as_text,
  as_number, as_fields, is_plain,
}
use persistent_harness.Protocol.CronFields.{
  cron_schedule, provider_and_model, optional_provider_model, optional_thinking_level, cron_check,
}

pub data Disposition : Type 0 where
  deliver no_finding : Disposition

abbrev disposition_in : Option Json → Reading Disposition
disposition_in v = do
  name ← one_of ("deliver" ∷ "no_finding" ∷ []) v
  ok (if str_eq name "deliver" then deliver else no_finding)

abbrev disposition_name : Disposition → String
disposition_name deliver = "deliver"
disposition_name no_finding = "no_finding"

-- The text that is delivered, none with no finding.
unfoldable report_body : Disposition → Option Json → Reading (Option String)
unfolding string
report_body no_finding none = ok none
report_body no_finding (some v) = err invalid_request
report_body deliver v = do body ← string v 1000; check (is_plain body); ok (some body)

unfoldable cron_report : List Entry → Reading (List Entry)
unfolding string report_body member
cron_report value = do
  exact value ("action" ∷ "runId" ∷ "disposition" ∷ "body" ∷ [])
  disposition ← disposition_in (get value "disposition")
  body ← report_body disposition (get value "body")
  run_id ← string (get value "runId") 128
  ok (
      entry "action" (text "report")
      ∷ entry "runId" (text run_id)
      ∷ entry "disposition" (text (disposition_name disposition))
      ∷ entry "body" (or_else (as_text body) null)
      ∷ [])

unfoldable cron_list : List Entry → Reading (List Entry)
unfolding member
cron_list value = do
  exact value ("action" ∷ "includeRemoved" ∷ [])
  removed ← optionally (get value "includeRemoved") bool
  ok (entry "action" (text "list") ∷ entry "includeRemoved" (boolean (or_else removed false)) ∷ [])

abbrev execution_modes : List String
execution_modes = "fresh" ∷ "origin" ∷ []

abbrev job_keys : List String
job_keys =
    "name" ∷ "prompt" ∷ "schedule" ∷ "executionMode" ∷ "repeat" ∷ "provider" ∷ "model"
    ∷ "thinkingLevel" ∷ "notificationIntent" ∷ "check" ∷ []

unfoldable cron_create : List Entry → Option String → Reading (List Entry)
unfolding utf8 integer cron_schedule provider_and_model optional_thinking_level cron_check as_fields
    member
cron_create value intent = do
  exact value ("action" ∷ job_keys)
  mode ← one_of execution_modes (default_text "fresh" (get value "executionMode"))
  name ← utf8 (get value "name") 128
  prompt ← utf8 (get value "prompt") (32 * 1024)
  schedule ← cron_schedule (get value "schedule")
  repeat ← optionally (present (get value "repeat")) (λ v. integer v 1 1000000)
  pin ← optional_provider_model value
  thinking ← optional_thinking_level (get value "thinkingLevel")
  command ← cron_check (get value "check")
  ok (
      entry "action" (text "create")
        ∷ entry "name" (text name)
        ∷ entry "prompt" (text prompt)
        ∷ entry "schedule" (object (as_fields schedule))
        ∷ entry "executionMode" (text mode)
        ∷ entry "notificationIntent" (or_else (as_text intent) null)
        ∷ entry "repeat" (or_else (as_number repeat) null)
        ∷ pin
      ++ thinking
      ++ command)

abbrev changed_keys : List String
changed_keys =
    "name" ∷ "prompt" ∷ "schedule" ∷ "executionMode" ∷ "repeat" ∷ "provider" ∷ "thinkingLevel"
    ∷ "notificationIntent" ∷ "check" ∷ []

abbrev is_missing : List Entry → String → Bool
is_missing value key = is_none (get value key)

unfoldable as_schedule : Option (List Entry) → Option Json
unfolding as_fields
as_schedule none = none
as_schedule (some fields) = some (object (as_fields fields))

abbrev as_repeat : Option (Option ℕ) → Option Json
as_repeat none = none
as_repeat (some n) = some (or_else (as_number n) null)

unfoldable cron_update : List Entry → String → Option String → Reading (List Entry)
unfolding utf8 integer cron_schedule provider_and_model optional_thinking_level cron_check as_fields
    member as_schedule
cron_update value selector intent = do
  exact value ("action" ∷ "selector" ∷ job_keys)
  mode ← optionally (get value "executionMode") (one_of execution_modes)
  pin ← optional_provider_model value
  thinking ← optional_thinking_level (get value "thinkingLevel")
  check (not (every (is_missing value) changed_keys))
  name ← optionally (get value "name") (λ v. utf8 v 128)
  prompt ← optionally (get value "prompt") (λ v. utf8 v (32 * 1024))
  schedule ← optionally (get value "schedule") cron_schedule
  repeat ← optionally (get value "repeat") (λ v. nullable v (λ w. integer w 1 1000000))
  command ← cron_check (get value "check")
  ok (
      entry "action" (text "update")
        ∷ entry "selector" (text selector)
        ∷ given "name" (as_text name)
      ++ given "prompt" (as_text prompt)
      ++ given "schedule" (as_schedule schedule)
      ++ given "executionMode" (as_text mode)
      ++ given "notificationIntent" (as_text intent)
      ++ given "repeat" (as_repeat repeat)
      ++ pin
      ++ thinking
      ++ command)

unfoldable cron_history : List Entry → String → Reading (List Entry)
unfolding integer member
cron_history value selector = do
  exact value ("action" ∷ "selector" ∷ "limit" ∷ [])
  limit ← optionally (get value "limit") (λ v. integer v 1 50)
  ok (
      entry "action" (text "history")
      ∷ entry "selector" (text selector)
      ∷ entry "limit" (whole_number (or_else limit 20))
      ∷ [])

-- `pause`, `resume`, `run` and `remove`.
unfoldable cron_selected : String → List Entry → String → Reading (List Entry)
unfolding member
cron_selected action value selector = do
  exact value ("action" ∷ "selector" ∷ [])
  ok (entry "action" (text action) ∷ entry "selector" (text selector) ∷ [])

abbrev cron_actions : List String
cron_actions =
    "create" ∷ "list" ∷ "update" ∷ "pause" ∷ "resume" ∷ "run" ∷ "remove" ∷ "history" ∷ "report" ∷ []

abbrev intents : List String
intents = "result" ∷ "conditional" ∷ "silent" ∷ []

-- The actions that name a job.
unfoldable cron_named : String → List Entry → Option String → Reading (List Entry)
unfolding string cron_update cron_history cron_selected
cron_named action value intent = do
  selector ← string (get value "selector") 256
  if str_eq action "update"
      then cron_update value selector intent
      else if str_eq action "history"
      then cron_history value selector
      else cron_selected action value selector

unfoldable cron_change : String → List Entry → Reading (List Entry)
unfolding cron_list cron_create cron_named member
cron_change action value = do
  intent ← optionally (get value "notificationIntent") (one_of intents)
  if str_eq action "list"
      then cron_list value
      else if str_eq action "create"
      then cron_create value intent
      else cron_named action value intent

unfoldable pub cron_job : Option Json → Reading (List Entry)
unfolding string member cron_report cron_change
cron_job params = do
  value ← read_record params
  action ← string (get value "action") 16
  check (member cron_actions action)
  if str_eq action "report" then cron_report value else cron_change action value
