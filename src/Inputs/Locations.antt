-- ===== src/Inputs/Locations.antt =====
-- `normalizeInputLocation` of src/input-location.mjs.
use persistent_harness.Prelude.{
  ℕ, ◌*◌, ◌^◌, Bool, true, false, Option, none, some, List, leb, ◌==◌, if◌then◌else◌, length,
  Outcome, ok, err, ◌>>=◌,
}
use persistent_harness.Js.Values.{
  Json, null, infinite, boolean, number, minus, text, array, object, Entry, get, fields_in,
}
use persistent_harness.Conversation.{safe_integer}

pub data InputError : Type 0 where
  invalid_location invalid_images : InputError

abbrev pub Input : Type 0 → Type 0
Input = Outcome InputError

infixl 5 ◌>>◌
abbrev pub ◌>>◌ : {A : Type 0} → Input (Unit {0}) → Input A → Input A
m >> k = m >>= λ _. k

abbrev pub require : InputError → Bool → Input (Unit {0})
require e true = ok tt
require e false = err e

abbrev pub or_throw : {A : Type 0} → InputError → Option A → Input A
or_throw e none = err e
or_throw e (some a) = ok a

-- A finite number from the one bound through the other, of which the lower is written without its
-- sign.
abbrev pub is_between : ℕ → ℕ → Json → Bool
is_between below above (number m k) = leb m (above * 2 ^ k)
is_between below above (minus m k) = leb m (below * 2 ^ k)
is_between below above null = false
is_between below above infinite = false
is_between below above (boolean b) = false
is_between below above (text s) = false
is_between below above (array vs) = false
is_between below above (object fs) = false

-- A finite number that is not negative.
abbrev pub is_positive : Json → Bool
is_positive (number m k) = true
is_positive (minus m k) = m == 0
is_positive null = false
is_positive infinite = false
is_positive (boolean b) = false
is_positive (text s) = false
is_positive (array vs) = false
is_positive (object fs) = false

-- `value || 0`, of a number: -0 becomes 0.
abbrev pub or_zero : Json → Json
or_zero (minus m k) = if m == 0 then number 0 0 else minus m k
or_zero (number m k) = number m k
or_zero null = number 0 0
or_zero infinite = infinite
or_zero (boolean b) = boolean b
or_zero (text s) = text s
or_zero (array vs) = array vs
or_zero (object fs) = object fs

pub record Location : Type 0 where
  pub latitude : Json
  pub longitude : Json
  pub accuracy : Json
  pub timestamp : ℕ

unfoldable pub location_of : List Entry → Input Location
location_of fields = do
  require invalid_location (length fields == 4)
  latitude ← or_throw invalid_location (get fields "latitude")
  longitude ← or_throw invalid_location (get fields "longitude")
  accuracy ← or_throw invalid_location (get fields "accuracy")
  timestamp ← or_throw invalid_location (safe_integer (get fields "timestamp"))
  require invalid_location (is_between 90 90 latitude)
  require invalid_location (is_between 180 180 longitude)
  require invalid_location (is_positive accuracy)
  require invalid_location (leb timestamp 8640000000000000)
  ok (record {
    latitude = or_zero latitude;
    longitude = or_zero longitude;
    accuracy = or_zero accuracy;
    timestamp = timestamp;
  })

unfoldable pub normalize_input_location : Option Json → Input (Option Location)
unfolding location_of
normalize_input_location none = ok none
normalize_input_location (some v) = do
  fields ← or_throw invalid_location (fields_in (some v))
  location ← location_of fields
  ok (some location)
