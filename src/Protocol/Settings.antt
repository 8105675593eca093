-- ===== src/Protocol/Settings.antt =====
-- The validators of src/protocol.mjs for usage and inference settings.
use persistent_harness.Prelude.{
  ℕ, String, Bool, true, ◌&&◌, ◌||◌, Option, none, some, List, [], ◌∷◌, ◌++◌, leb, is_some, is_none,
  ok, ◌>>=◌,
}
use persistent_harness.Js.Values.{Json, null, boolean, text, object, Entry, get}
use persistent_harness.Protocol.Reading.{
  Reading, ◌>>◌, check, member, exact_record, string, bool, integer, finite, optionally, or_else,
  nullable, entry, given, whole_number, as_number, as_boolean, as_fields, safe_max,
}
use persistent_harness.Protocol.Sessions.{session_id_param, session_entry}

-- What a model used, as the validator returns it.
pub record Usage : Type 0 where
  pub entry_id : String
  pub provider : String
  pub model_id : String
  pub input : ℕ
  pub output : ℕ
  pub cache_read : ℕ
  pub cache_write : ℕ
  pub reasoning : Option ℕ
  pub total_tokens : ℕ
  pub cost_total : Json

abbrev pub count_in : List Entry → String → Reading ℕ
count_in value key = integer (get value key) 0 safe_max

abbrev pub usage_keys : List String
usage_keys =
    "entryId" ∷ "provider" ∷ "model" ∷ "input" ∷ "output" ∷ "cacheRead" ∷ "cacheWrite" ∷ "reasoning"
    ∷ "totalTokens" ∷ "costTotal" ∷ []

abbrev pub not_more_than : ℕ → Option ℕ → Bool
not_more_than most none = true
not_more_than most (some n) = leb n most

unfoldable pub usage : Option Json → Reading Usage
unfolding exact_record string integer finite
usage params = do
  value ← exact_record params usage_keys
  entry_id ← string (get value "entryId") 128
  provider ← string (get value "provider") 128
  model_id ← string (get value "model") 256
  input ← count_in value "input"
  output ← count_in value "output"
  cache_read ← count_in value "cacheRead"
  cache_write ← count_in value "cacheWrite"
  reasoning ← optionally (get value "reasoning") (λ v. integer v 0 safe_max)
  total_tokens ← count_in value "totalTokens"
  cost_total ← finite (get value "costTotal") 1000000000
  check (not_more_than output reasoning)
  ok (record {
    entry_id = entry_id;
    provider = provider;
    model_id = model_id;
    input = input;
    output = output;
    cache_read = cache_read;
    cache_write = cache_write;
    reasoning = reasoning;
    total_tokens = total_tokens;
    cost_total = cost_total;
  })

abbrev pub usage_entries : Usage → List Entry
usage_entries u =
    entry "entryId" (text u.entry_id)
    ∷ entry "provider" (text u.provider)
    ∷ entry "model" (text u.model_id)
    ∷ entry "input" (whole_number u.input)
    ∷ entry "output" (whole_number u.output)
    ∷ entry "cacheRead" (whole_number u.cache_read)
    ∷ entry "cacheWrite" (whole_number u.cache_write)
    ∷ entry "reasoning" (or_else (as_number u.reasoning) null)
    ∷ entry "totalTokens" (whole_number u.total_tokens)
    ∷ entry "costTotal" u.cost_total
    ∷ []

unfoldable pub usage_window : Option Json → Reading (List Entry)
unfolding exact_record integer
usage_window params = do
  value ← exact_record params ("windowMinutes" ∷ [])
  minutes ← integer (get value "windowMinutes") 1 10080
  ok (entry "windowMinutes" (whole_number minutes) ∷ [])

-- How full the context is, as the validator returns it.
pub record ContextUsage : Type 0 where
  pub tokens : Option ℕ
  pub context_window : ℕ
  pub percent : Option Json

unfoldable pub context_usage : Option Json → Reading ContextUsage
unfolding exact_record integer finite
context_usage params = do
  value ← exact_record params ("tokens" ∷ "contextWindow" ∷ "percent" ∷ [])
  window ← integer (get value "contextWindow") 1 10000000
  tokens ← nullable (get value "tokens") (λ v. integer v 0 10000000)
  percent ← nullable (get value "percent") (λ v. finite v 10000)
  check (is_some tokens && is_some percent || is_none tokens && is_none percent)
  ok (record { tokens = tokens; context_window = window; percent = percent })

abbrev pub context_entries : ContextUsage → List Entry
context_entries u =
    entry "tokens" (or_else (as_number u.tokens) null)
    ∷ entry "contextWindow" (whole_number u.context_window)
    ∷ entry "percent" (or_else u.percent null)
    ∷ []

abbrev inference_levels : List String
inference_levels = "off" ∷ "minimal" ∷ "low" ∷ "medium" ∷ "high" ∷ "xhigh" ∷ "max" ∷ []

unfoldable pub thinking_level : Option Json → Reading String
unfolding string member
thinking_level v = do level ← string v 16; check (member inference_levels level); ok level

unfoldable inference_selection : Option Json → Reading (List Entry)
unfolding exact_record string thinking_level
inference_selection v = do
  value ← exact_record v ("provider" ∷ "model" ∷ "thinkingLevel" ∷ "fastMode" ∷ [])
  fast ← optionally (get value "fastMode") bool
  provider ← string (get value "provider") 128
  model_id ← string (get value "model") 256
  level ← thinking_level (get value "thinkingLevel")
  ok (
      given "fastMode" (as_boolean fast)
      ++ entry "provider" (text provider)
        ∷ entry "model" (text model_id)
        ∷ entry "thinkingLevel" (text level)
        ∷ [])

unfoldable pub set_inference : Option Json → Reading (List Entry)
unfolding session_id_param string thinking_level inference_selection as_fields
set_inference params = do
  p ← session_id_param params ("provider" ∷ "model" ∷ "thinkingLevel" ∷ "expected" ∷ [])
  provider ← string (get p.value "provider") 128
  model_id ← string (get p.value "model") 256
  level ← thinking_level (get p.value "thinkingLevel")
  expected ← inference_selection (get p.value "expected")
  ok (
      session_entry p
      ∷ entry "provider" (text provider)
      ∷ entry "model" (text model_id)
      ∷ entry "thinkingLevel" (text level)
      ∷ entry "expected" (object (as_fields expected))
      ∷ [])

unfoldable pub set_default_inference : Option Json → Reading (List Entry)
unfolding exact_record string
set_default_inference params = do
  value ← exact_record params ("target" ∷ "apply" ∷ [])
  target ← string (get value "target") 256
  apply ← bool (get value "apply")
  ok (entry "target" (text target) ∷ entry "apply" (boolean apply) ∷ [])

unfoldable pub set_fast_mode : Option Json → Reading (List Entry)
unfolding session_id_param inference_selection as_fields
set_fast_mode params = do
  p ← session_id_param params ("fastMode" ∷ "expected" ∷ [])
  expected ← inference_selection (get p.value "expected")
  before ← bool (get expected "fastMode")
  fast ← bool (get p.value "fastMode")
  ok (
      session_entry p
      ∷ entry "fastMode" (boolean fast)
      ∷ entry "expected" (object (as_fields expected))
      ∷ [])
