-- ===== src/Conversation.antt =====
-- When a message of a conversation came to be (src/conversation-birth.mjs).
pub mod Clock
use persistent_harness.Prelude.{
  ℕ, zero, suc, ◌+◌, ◌≤◌, ◌≡◌, refl, String, Bool, true, false, not, ◌&&◌, ◌||◌, Option, none, some,
  List, [], ◌∷◌, ◌++◌, str_eq, ltb, leb, ◌==◌, is_some, if◌then◌else◌, length, every,
}
use persistent_harness.Js.Texts.{utf16_length}
use persistent_harness.Js.Values.{
  Json, number, text, object, Fields, field, end, Entry, get, whole, text_in, fields_in, list_in,
}

-- `Number.isSafeInteger`, of a number that is not negative.
abbrev pub safe_integer : Option Json → Option ℕ
safe_integer none = none
safe_integer (some v) = elim (whole v) [
  | none ↦ none
  | some n ↦ if leb n 9007199254740991 then some n else none
]

pub record Birth : Type 0 where
  pub created_at : String
  pub sequence : ℕ

-- `timelineSequence`, 0 where there is none.
unfoldable timeline_sequence : Option Json → ℕ
timeline_sequence v = elim (safe_integer v) [ none ↦ 0 | some n ↦ n ]

abbrev is_version : Option Json → Bool
is_version none = false
is_version (some v) = elim (whole v) [ none ↦ false | some n ↦ n == 1 ]

abbrev lookup : Option Json → String → Option Json
lookup v key = elim (fields_in v) [ none ↦ none | some fields ↦ get fields key ]

abbrev is_text : String → Option Json → Bool
is_text s v = elim (text_in v) [ none ↦ false | some t ↦ str_eq t s ]

unfoldable part_births : List Json → List (Option Json)
part_births [] = []
part_births (p ∷ ps) =
    let rest = part_births ps in
    if is_text "text" (lookup (some p) "type") then lookup (some p) "harnessBirth" ∷ rest else rest

abbrev parts_in : Option Json → List Json
parts_in v = elim (list_in v) [ none ↦ [] | some ps ↦ ps ]

-- The values of an entry that may be births.
unfoldable entry_births : Json → List (Option Json)
unfolding part_births
entry_births e =
    if is_text "message" (lookup (some e) "type")
      && is_text "assistant" (lookup (lookup (some e) "message") "role")
    then part_births (parts_in (lookup (lookup (some e) "message") "content"))
    else if is_text "custom" (lookup (some e) "type")
        && is_text "persistent-harness.progress-v1" (lookup (some e) "customType")
    then lookup (lookup (some e) "data") "harnessBirth" ∷ []
    else []

unfoldable pub births_of : List Json → List (Option Json)
unfolding entry_births
births_of [] = []
births_of (e ∷ es) = entry_births e ++ births_of es

-- `is_iso s` is that `new Date(s)` is a date and its `toISOString()` is `s`.
module _ (is_iso : String → Bool) where
  abbrev pub born : String → ℕ → Option Birth
  born at n =
      if leb 1 n && leb (utf16_length at) 32 && is_iso at
      then some (record { created_at = at; sequence = n })
      else none

  -- The sequence and the time as they were read, and whether the rest fits.
  abbrev pub birth_from : Option ℕ → Option String → Bool → Option Birth
  birth_from none at fits = none
  birth_from (some n) none fits = none
  birth_from (some n) (some at) false = none
  birth_from (some n) (some at) true = born at n

  abbrev birth_of : List Entry → Option Birth
  birth_of fields =
      birth_from (safe_integer (get fields "sequence")) (text_in (get fields "createdAt"))
        (length fields == 3 && is_version (get fields "version"))

  unfoldable pub conversation_birth : Option Json → Option Birth
  conversation_birth v = elim (fields_in v) [ none ↦ none | some fields ↦ birth_of fields ]

  abbrev pub sequence_of : Option Birth → ℕ
  sequence_of none = 0
  sequence_of (some b) = b.sequence

  abbrev later : ℕ → ℕ → ℕ
  later a b = if leb a b then b else a

  -- `Math.max` of a sequence and those of the births.
  pub last_sequence : ℕ → List (Option Json) → ℕ
  unfolding conversation_birth
  last_sequence seq [] = seq
  last_sequence seq (v ∷ vs) = last_sequence (later seq (sequence_of (conversation_birth v))) vs

  -- `ConversationBirthClock`, whose state is the sequence of the last birth: `reset`.
  unfoldable pub reset : List Json → ℕ
  unfolding last_sequence births_of
  reset entries = last_sequence 0 (births_of entries)

  abbrev pub birth_fields : String → ℕ → Json
  birth_fields now seq = object (
      field "version" (number 1 0)
        (field "createdAt" (text now) (field "sequence" (number seq 0) end)))

  abbrev pub next_from : ℕ → Option Birth → Option Birth × ℕ
  next_from seq none = (none, seq)
  next_from seq (some b) = (some b, b.sequence)

  -- `next` at a time, with the sequence that the clock has afterwards.
  unfoldable pub next : ℕ → String → Option Birth × ℕ
  unfolding conversation_birth
  next seq now = next_from seq (conversation_birth (some (birth_fields now (seq + 1))))
