-- ===== src/Inputs/Jpeg.antt =====
-- The size of an image, `imageDimensions` of src/input-images.mjs.
use persistent_harness.Prelude.{
  ℕ, zero, suc, ◌+◌, ◌*◌, Bool, not, ◌&&◌, ◌||◌, Option, none, some, List, [], ◌∷◌, ltb, leb, ◌==◌,
  if◌then◌else◌, length,
}

abbrev pub Bytes : Type 0
Bytes = List ℕ

-- The decoded size is that of the samples, where the format says it.
pub record Dimensions : Type 0 where
  pub width : ℕ
  pub height : ℕ
  pub decoded_bytes : Option ℕ

-- The bytes from an offset on.
unfoldable pub from : ℕ → Bytes → Bytes
from zero bs = bs
from (suc n) [] = []
from (suc n) (b ∷ bs) = from n bs

abbrev head_or_zero : Bytes → ℕ
head_or_zero [] = 0
head_or_zero (b ∷ bs) = b

-- The readers below are used where there are enough bytes.
unfoldable pub byte_at : ℕ → Bytes → ℕ
unfolding from
byte_at n bs = head_or_zero (from n bs)

pub read_uint16_be : ℕ → Bytes → ℕ
unfolding byte_at
read_uint16_be n bs = byte_at n bs * 256 + byte_at (n + 1) bs

unfoldable pub read_uint32_be : ℕ → Bytes → ℕ
unfolding read_uint16_be
read_uint32_be n bs = read_uint16_be n bs * 65536 + read_uint16_be (n + 2) bs

abbrev is_start_of_frame : ℕ → Bool
is_start_of_frame m =
    leb 0xc0 m && leb m 0xcf && not (m == 0xc4) && not (m == 0xc8) && not (m == 0xcc)

-- `while (bytes[offset] === 0xff) offset += 1`.
unfoldable pub skip_fill : Bytes → Bytes
skip_fill [] = []
skip_fill (b ∷ bs) = let rest = skip_fill bs in if b == 0xff then rest else b ∷ bs

-- What is done at a marker, with the bytes after it.
pub data Step : Type 0 where
  stop : Step
  found : Dimensions → Step
  go_on : Bytes → Step

unfoldable pub segment : Bytes → ℕ → Step
unfolding read_uint16_be from
segment bs marker =
    if ltb (read_uint16_be 0 bs) 2 || ltb (length bs) (read_uint16_be 0 bs)
    then stop
    else if is_start_of_frame marker && leb 7 (read_uint16_be 0 bs)
    then found
        (record { height = read_uint16_be 3 bs; width = read_uint16_be 5 bs; decoded_bytes = none })
    else go_on (from (read_uint16_be 0 bs) bs)

unfoldable pub after_fill : Bytes → Step
unfolding segment
after_fill [] = stop
after_fill (marker ∷ bs) =
    if marker == 0xd9 || marker == 0xda || leb (length bs) 1
    then stop
    else if marker == 0x01 || leb 0xd0 marker && leb marker 0xd7
    then go_on bs
    else segment bs marker

-- One round of the loop, of the bytes from the offset on.
unfoldable pub round : Bytes → Step
unfolding after_fill skip_fill
round [] = stop
round (b ∷ bs) =
    if leb (length (b ∷ bs)) 3
    then stop
    else if b == 0xff
    then after_fill (skip_fill (b ∷ bs))
    else go_on bs

-- The rounds until the loop ends, with what it found; `none` where there were too few.
unfoldable pub scan : ℕ → Bytes → Option (Option Dimensions)
unfolding round
scan zero bs = none
scan (suc fuel) bs = elim (round bs) [
  | stop ↦ some none
  | found d ↦ some (some d)
  | go_on rest ↦ scan fuel rest
]
