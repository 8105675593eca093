-- ===== src/Protocol/Children.antt =====
-- The validators of src/protocol.mjs for children, skills and messages.
use persistent_harness.Prelude.{
  ◌*◌, String, Bool, true, false, Option, none, some, List, [], ◌∷◌, ok, err, ◌>>=◌,
}
use persistent_harness.Js.Values.{Json, null, boolean, text, array, object, Entry, get, present}
use persistent_harness.Protocol.Reading.{
  invalid_request, Reading, exact_record, string, utf8, bool, read_array, optionally, or_else,
  nullable, one_of, default_text, each, entry, as_text, as_items, texts, as_fields, objects,
}

abbrev skill_keys : List String
skill_keys = "id" ∷ "version" ∷ "contentHash" ∷ "skillPath" ∷ "pythonBacked" ∷ []

unfoldable skill : Option Json → Reading (List Entry)
unfolding exact_record string
skill v = do
  value ← exact_record v skill_keys
  id ← string (get value "id") 64
  version ← string (get value "version") 256
  hash ← string (get value "contentHash") 128
  path ← string (get value "skillPath") 4096
  python_backed ← bool (get value "pythonBacked")
  ok (
      entry "id" (text id)
      ∷ entry "version" (text version)
      ∷ entry "contentHash" (text hash)
      ∷ entry "skillPath" (text path)
      ∷ entry "pythonBacked" (boolean python_backed)
      ∷ [])

unfoldable pub skill_manifest : Option Json → Reading (List Entry)
unfolding exact_record skill read_array each as_items objects
skill_manifest params = do
  value ← exact_record params ("skills" ∷ [])
  raw ← read_array (get value "skills") 128
  skills ← each skill raw
  ok (entry "skills" (array (as_items (objects skills))) ∷ [])

unfoldable model : Option Json → Reading (List Entry)
unfolding exact_record string read_array each as_items texts
model v = do
  value ← exact_record v ("provider" ∷ "id" ∷ "name" ∷ "reasoning" ∷ "thinkingLevels" ∷ [])
  provider ← string (get value "provider") 128
  id ← string (get value "id") 256
  name ← optionally (get value "name") (λ n. string n 256)
  reasoning ← optionally (get value "reasoning") bool
  raw ← read_array (get value "thinkingLevels") 7
  levels ← each (λ l. string l 16) raw
  ok (
      entry "provider" (text provider)
      ∷ entry "id" (text id)
      ∷ entry "name" (text (or_else name id))
      ∷ entry "reasoning" (boolean (or_else reasoning false))
      ∷ entry "thinkingLevels" (array (as_items (texts levels)))
      ∷ [])

abbrev spawn_keys : List String
spawn_keys =
    "prompt" ∷ "name" ∷ "model" ∷ "thinkingLevel" ∷ "parentModel" ∷ "parentThinkingLevel"
    ∷ "availableModels" ∷ "forkContext" ∷ "forkLeafId" ∷ []

-- The leaf that the child takes its context from: with a fork it is a text or null, else it is not
-- there.
unfoldable fork_leaf : Bool → Option Json → Reading (List Entry)
unfolding string
fork_leaf false none = ok []
fork_leaf false (some v) = err invalid_request
fork_leaf true v = nullable v (λ w. string w 128) >>= λ leaf.
    ok (entry "forkLeafId" (or_else (as_text leaf) null) ∷ [])

unfoldable pub spawn_child : Option Json → Reading (List Entry)
unfolding exact_record string utf8 model read_array each as_items as_fields objects fork_leaf
spawn_child params = do
  value ← exact_record params spawn_keys
  fork ← optionally (get value "forkContext") bool
  leaf ← fork_leaf (or_else fork false) (get value "forkLeafId")
  prompt ← utf8 (get value "prompt") (32 * 1024)
  name ← optionally (present (get value "name")) (λ v. string v 64)
  requested ← optionally (present (get value "model")) (λ v. string v 384)
  level ← optionally (present (get value "thinkingLevel")) (λ v. string v 16)
  parent_model ← model (get value "parentModel")
  parent_level ← string (get value "parentThinkingLevel") 16
  raw ← read_array (get value "availableModels") 512
  available ← each model raw
  ok (
      entry "prompt" (text prompt)
      ∷ entry "name" (or_else (as_text name) null)
      ∷ entry "model" (or_else (as_text requested) null)
      ∷ entry "thinkingLevel" (or_else (as_text level) null)
      ∷ entry "parentModel" (object (as_fields parent_model))
      ∷ entry "parentThinkingLevel" (text parent_level)
      ∷ entry "availableModels" (array (as_items (objects available)))
      ∷ entry "forkContext" (boolean (or_else fork false))
      ∷ leaf)

unfoldable pub send_message : Option Json → Reading (List Entry)
unfolding exact_record string utf8
send_message params = do
  value ← exact_record params ("target" ∷ "body" ∷ "deliveryMode" ∷ [])
  mode ← one_of ("auto" ∷ "follow_up" ∷ []) (default_text "auto" (get value "deliveryMode"))
  target ← string (get value "target") 256
  body ← utf8 (get value "body") (16 * 1024)
  ok (
      entry "target" (text target)
      ∷ entry "body" (text body)
      ∷ entry "deliveryMode" (text "auto")
      ∷ [])
