-- ===== src/Js/Texts.antt =====
-- Texts of JavaScript without unpaired surrogates. `String.len` counts the bytes of the UTF-8, as
-- `Buffer.byteLength` does.
use Prim.Native.String
use Prim.Native.Char.{code}
use persistent_harness.Prelude.{
  ℕ, ◌+◌, ◌-◌, ◌/◌, ◌%◌, String, Bool, ◌&&◌, ◌||◌, List, [], ◌∷◌, ltb, leb, if◌then◌else◌, length,
}

-- The UTF-16 code units of a character, in front of those of the rest.
abbrev units_of : ℕ → List ℕ → List ℕ
units_of c cs =
    if ltb c 0x10000
    then c ∷ cs
    else (0xd800 + (c - 0x10000) / 0x400) ∷ (0xdc00 + (c - 0x10000) % 0x400) ∷ cs

unfoldable pub units : String → List ℕ
units String.[] = []
units (String.◌∷◌ c s) = units_of (code c) (units s)

-- `text.length`.
abbrev pub utf16_length : String → ℕ
utf16_length s = length (units s)

abbrev pub byte_length : String → ℕ
byte_length s = String.len s

abbrev is_digit : ℕ → Bool
is_digit c = leb b'0' c && leb c b'9'

abbrev is_lower : ℕ → Bool
is_lower c = leb b'a' c && leb c b'z'

abbrev is_upper : ℕ → Bool
is_upper c = leb b'A' c && leb c b'Z'

-- `[A-Za-z0-9]`.
abbrev pub is_alphanumeric : ℕ → Bool
is_alphanumeric c = is_digit c || is_lower c || is_upper c

-- `[a-f0-9]`.
abbrev pub is_hex : ℕ → Bool
is_hex c = is_digit c || leb b'a' c && leb c b'f'
