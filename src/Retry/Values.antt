-- ===== src/Retry/Values.antt =====
-- The values that src/inference-retry.mjs reads from the objects it is given, and its readers.
use persistent_harness.Prelude.{
  ℕ, ◌/◌, ◌%◌, ◌^◌, String, Bool, false, not, ◌&&◌, Option, none, some, List, ltb, leb, ◌==◌,
  if◌then◌else◌, length, every,
}

-- What `value(object, key)` gives: `number m k` is the number m / 2 ^ k, as each finite number of
-- JavaScript is that is not negative; all else that is no Boolean and no string is `other`. An object
-- without the key, and what is no object, gives `undefined`.
pub data Value : Type 0 where
  undefined other : Value
  truth : Bool → Value
  number : ℕ → ℕ → Value
  text : String → Value

abbrev pub max_safe_integer : ℕ
max_safe_integer = 9007199254740991

abbrev pub boolean : Value → Option Bool
boolean (truth b) = some b
boolean undefined = none
boolean other = none
boolean (number m k) = none
boolean (text s) = none

-- `count`: a safe integer.
abbrev pub count : Value → Option ℕ
count (number m k) =
    if m % 2 ^ k == 0 && leb (m / 2 ^ k) max_safe_integer then some (m / 2 ^ k) else none
count undefined = none
count other = none
count (truth b) = none
count (text s) = none

abbrev positive : Option ℕ → Option ℕ
positive none = none
positive (some n) = if ltb 0 n then some n else none

-- `ordinal`: a safe integer from 1 on.
abbrev pub ordinal : Value → Option ℕ
ordinal v = positive (count v)

module _ (units : String → List ℕ) where
  -- `id`: a string of 1 to 1024 code units, none of them a control character or a space.
  abbrev pub id : Value → Option String
  id (text s) =
      let cs = units s in
      if ltb 0 (length cs) && leb (length cs) 1024 && every (λ c. ltb 0x20 c && not (c == 0x7f)) cs
      then some s
      else none
  id undefined = none
  id other = none
  id (truth b) = none
  id (number m k) = none

abbrev pub is_true : Option Bool → Bool
is_true none = false
is_true (some b) = b

abbrev pub is_false : Option Bool → Bool
is_false none = false
is_false (some b) = not b

abbrev pub is_zero : Option ℕ → Bool
is_zero none = false
is_zero (some n) = n == 0
