-- ===== src/Protocol/Reading.antt =====
-- The checks that the validators of src/protocol.mjs are made of, lines 83 to 100. What they throw is
-- a `ProtocolError`, of which the code is kept and the message is not.
use persistent_harness.Prelude.{
  ℕ, ◌*◌, ◌^◌, String, Bool, true, false, not, ◌&&◌, ◌||◌, Option, none, some, List, [], ◌∷◌,
  str_eq, ltb, leb, ◌==◌, is_none, if◌then◌else◌, length, every, Outcome, ok, err, ◌>>=◌,
}
use persistent_harness.Js.Texts.{units, utf16_length, byte_length}
use persistent_harness.Cron.Text.{trim}
use persistent_harness.Js.Values.{
  Json, null, infinite, boolean, number, minus, text, array, object, Items, nil, item, Fields, end,
  field, Entry, whole, present, text_in, fields_in, list_in, boolean_in,
}

pub data Code : Type 0 where
  invalid_request unsupported_version unknown_request invalid_response : Code

abbrev pub Reading : Type 0 → Type 0
Reading = Outcome Code

infixl 5 ◌>>◌
abbrev pub ◌>>◌ : {A : Type 0} → Reading (Unit {0}) → Reading A → Reading A
m >> k = m >>= λ _. k

abbrev pub require : Bool → Code → Reading (Unit {0})
require true c = ok tt
require false c = err c

abbrev pub check : Bool → Reading (Unit {0})
check b = require b invalid_request

abbrev pub taken : {A : Type 0} → Option A → Reading A
taken none = err invalid_request
taken (some a) = ok a

-- `new Set(keys).has(key)`.
unfoldable pub member : List String → String → Bool
member [] key = false
member (k ∷ ks) key = str_eq k key || member ks key

abbrev pub read_record : Option Json → Reading (List Entry)
read_record v = taken (fields_in v)

abbrev pub has_key_in : List String → Entry → Bool
has_key_in keys e = member keys e.key

abbrev pub exact : List Entry → List String → Reading (Unit {0})
exact fields keys = check (every (has_key_in keys) fields)

-- An object of no other keys than those given.
unfoldable pub exact_record : Option Json → List String → Reading (List Entry)
exact_record v keys = do fields ← read_record v; exact fields keys; ok fields

unfoldable pub string : Option Json → ℕ → Reading String
string v max = do
  s ← taken (text_in v)
  check (leb 1 (utf16_length s) && leb (utf16_length s) max)
  ok s

unfoldable pub utf8 : Option Json → ℕ → Reading String
unfolding string
utf8 v max = do s ← string v max; check (leb (byte_length s) max); ok s

abbrev pub bool : Option Json → Reading Bool
bool v = taken (boolean_in v)

abbrev pub whole_in : Option Json → Option ℕ
whole_in none = none
whole_in (some v) = whole v

-- The bounds that the validators give are not negative, so no negative number is in them.
unfoldable pub integer : Option Json → ℕ → ℕ → Reading ℕ
integer v min max = do n ← taken (whole_in v); check (leb min n && leb n max); ok n

unfoldable pub read_array : Option Json → ℕ → Reading (List Json)
read_array v max = do vs ← taken (list_in v); check (leb (length vs) max); ok vs

-- A number from 0 through `max`.
abbrev is_within : ℕ → Json → Bool
is_within max (number m k) = leb m (max * 2 ^ k)
is_within max (minus m k) = m == 0
is_within max null = false
is_within max infinite = false
is_within max (boolean b) = false
is_within max (text s) = false
is_within max (array vs) = false
is_within max (object fs) = false

unfoldable pub finite : Option Json → ℕ → Reading Json
finite v max = do n ← taken v; check (is_within max n); ok n

-- `value === undefined ? default : read(value)`.
abbrev pub optionally : {A : Type 0} → Option Json → (Option Json → Reading A) → Reading (Option A)
optionally none read = ok none
optionally (some v) read = read (some v) >>= λ a. ok (some a)

abbrev pub or_else : {A : Type 0} → Option A → A → A
or_else none b = b
or_else (some a) b = a

abbrev is_null : Option Json → Bool
is_null none = false
is_null (some v) = is_none (present (some v))

-- `value === null ? null : read(value)`.
abbrev pub nullable : {A : Type 0} → Option Json → (Option Json → Reading A) → Reading (Option A)
nullable v read = if is_null v then ok none else (read v >>= λ a. ok (some a))

-- `[...].includes(value)`.
abbrev pub one_of : List String → Option Json → Reading String
one_of choices v = do s ← taken (text_in v); check (member choices s); ok s

-- `value ?? default`.
abbrev pub default_text : String → Option Json → Option Json
default_text d v = elim (present v) [ none ↦ some (text d) | some w ↦ some w ]

unfoldable pub each : {A : Type 0} → (Option Json → Reading A) → List Json → Reading (List A)
each read [] = ok []
each read (v ∷ vs) = do a ← read (some v); rest ← each read vs; ok (a ∷ rest)

-- What a validator returns: the entries of an object, in their order.
abbrev pub entry : String → Json → Entry
entry key v = record { key = key; value = v }

-- `...(value === undefined ? {} : { key: value })`.
abbrev pub given : String → Option Json → List Entry
given key none = []
given key (some v) = entry key v ∷ []

abbrev pub whole_number : ℕ → Json
whole_number n = number n 0

abbrev pub as_text : Option String → Option Json
as_text none = none
as_text (some s) = some (text s)

abbrev pub as_number : Option ℕ → Option Json
as_number none = none
as_number (some n) = some (number n 0)

abbrev pub as_boolean : Option Bool → Option Json
as_boolean none = none
as_boolean (some b) = some (boolean b)

unfoldable pub as_items : List Json → Items
as_items [] = nil
as_items (v ∷ vs) = item v (as_items vs)

unfoldable pub texts : List String → List Json
texts [] = []
texts (s ∷ ss) = text s ∷ texts ss

unfoldable pub as_fields : List Entry → Fields
as_fields [] = end
as_fields (e ∷ es) = field e.key e.value (as_fields es)

unfoldable pub objects : List (List Entry) → List Json
unfolding as_fields
objects [] = []
objects (o ∷ os) = object (as_fields o) ∷ objects os

abbrev pub safe_max : ℕ
safe_max = 9007199254740991

abbrev is_control : ℕ → Bool
is_control c = ltb c 0x20 || c == 0x7f

-- Text that is not blank and has no control characters.
abbrev pub is_plain : String → Bool
is_plain s = leb 1 (length (trim (units s))) && every (λ c. not (is_control c)) (units s)
