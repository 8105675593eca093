-- ===== src/Js/Values.antt =====
-- Values as `JSON.parse` makes them. A field that is not there, `undefined`, is `none`.
use persistent_harness.Prelude.{
  ℕ, ◌/◌, ◌%◌, ◌^◌, String, Bool, Option, none, some, List, [], ◌∷◌, str_eq, ◌==◌, if◌then◌else◌,
}

-- `number m k` is m / 2 ^ k, as each finite number that is not negative is; `minus m k` is the
-- opposite, and `infinite` what a numeral that is too large becomes.
mutual
  pub data Json : Type 0 where
    null infinite : Json
    boolean : Bool → Json
    number minus : ℕ → ℕ → Json
    text : String → Json
    array : Items → Json
    object : Fields → Json

  pub data Items : Type 0 where
    nil : Items
    item : Json → Items → Items

  pub data Fields : Type 0 where
    end : Fields
    field : String → Json → Fields → Fields

unfoldable pub items_of : Items → List Json
items_of nil = []
items_of (item v vs) = v ∷ items_of vs

-- The keys and the values of an object, in their order.
pub record Entry : Type 0 where
  pub key : String
  pub value : Json

unfoldable pub entries_of : Fields → List Entry
entries_of end = []
entries_of (field k v fs) = record { key = k; value = v } ∷ entries_of fs

-- `object[key]`.
unfoldable pub get : List Entry → String → Option Json
get [] key = none
get (e ∷ es) key = if str_eq e.key key then some e.value else get es key

-- The number, where a value is an integer that is not negative.
abbrev pub whole : Json → Option ℕ
whole (number m k) = if m % 2 ^ k == 0 then some (m / 2 ^ k) else none
whole (minus m k) = if m == 0 then some 0 else none
whole null = none
whole infinite = none
whole (boolean b) = none
whole (text s) = none
whole (array xs) = none
whole (object fs) = none

-- `value == null`, as a value or nothing at all.
abbrev pub present : Option Json → Option Json
present none = none
present (some null) = none
present (some infinite) = some infinite
present (some (boolean b)) = some (boolean b)
present (some (number m k)) = some (number m k)
present (some (minus m k)) = some (minus m k)
present (some (text s)) = some (text s)
present (some (array xs)) = some (array xs)
present (some (object fs)) = some (object fs)

abbrev pub text_in : Option Json → Option String
text_in (some (text s)) = some s
text_in none = none
text_in (some null) = none
text_in (some infinite) = none
text_in (some (boolean b)) = none
text_in (some (number m k)) = none
text_in (some (minus m k)) = none
text_in (some (array xs)) = none
text_in (some (object fs)) = none

-- The fields of a value that is an object and no array.
abbrev pub fields_in : Option Json → Option (List Entry)
fields_in (some (object fs)) = some (entries_of fs)
fields_in none = none
fields_in (some null) = none
fields_in (some infinite) = none
fields_in (some (boolean b)) = none
fields_in (some (number m k)) = none
fields_in (some (minus m k)) = none
fields_in (some (text s)) = none
fields_in (some (array xs)) = none

abbrev pub list_in : Option Json → Option (List Json)
list_in (some (array xs)) = some (items_of xs)
list_in none = none
list_in (some null) = none
list_in (some infinite) = none
list_in (some (boolean b)) = none
list_in (some (number m k)) = none
list_in (some (minus m k)) = none
list_in (some (text s)) = none
list_in (some (object fs)) = none

abbrev pub boolean_in : Option Json → Option Bool
boolean_in (some (boolean b)) = some b
boolean_in none = none
boolean_in (some null) = none
boolean_in (some infinite) = none
boolean_in (some (text s)) = none
boolean_in (some (number m k)) = none
boolean_in (some (minus m k)) = none
boolean_in (some (array xs)) = none
boolean_in (some (object fs)) = none
