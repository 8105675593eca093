-- ===== src/Inputs/Images.antt =====
-- `normalizeInputImages` of src/input-images.mjs, without the metadata of pasted images.
use persistent_harness.Prelude.{
  ℕ, suc, ◌+◌, ◌-◌, ◌*◌, ◌/◌, ◌%◌, String, Bool, true, false, not, ◌&&◌, ◌||◌, Option, none, some,
  List, [], ◌∷◌, str_eq, ltb, leb, ◌==◌, if◌then◌else◌, length, every, take, ok, ◌>>=◌,
}
use persistent_harness.Cron.Text.{Text}
use persistent_harness.Js.Texts.{units, utf16_length, is_alphanumeric}
use persistent_harness.Js.Values.{
  Json, text, object, field, end, Entry, get, present, text_in, fields_in, list_in,
}
use persistent_harness.Inputs.Locations.{Input, invalid_images, ◌>>◌, require, or_throw}
use persistent_harness.Inputs.Jpeg.{Bytes, Dimensions, from, byte_at, read_uint32_be, scan}

abbrev pub max_input_image_count : ℕ
max_input_image_count = 4

abbrev pub max_input_image_bytes : ℕ
max_input_image_bytes = 3 * 1024 * 1024

abbrev is_base64_sign : ℕ → Bool
is_base64_sign c = is_alphanumeric c || c == b'+' || c == b'/'

-- The number of `=` at the end, two at most.
abbrev padding : Text → ℕ
padding cs =
    if leb 1 (length cs) && byte_at (length cs - 1) cs == b'='
    then (if leb 2 (length cs) && byte_at (length cs - 2) cs == b'=' then 2 else 1)
    else 0

pub is_base64 : Text → Bool
unfolding byte_at
is_base64 cs = length cs % 4 == 0 && every is_base64_sign (take (length cs - padding cs) cs)

pub same_bytes : Bytes → Bytes → Bool
same_bytes [] [] = true
same_bytes [] (c ∷ cs) = false
same_bytes (b ∷ bs) [] = false
same_bytes (b ∷ bs) (c ∷ cs) = b == c && same_bytes bs cs

abbrev png_signature : Bytes
png_signature = 0x89 ∷ 0x50 ∷ 0x4e ∷ 0x47 ∷ 0x0d ∷ 0x0a ∷ 0x1a ∷ 0x0a ∷ []

-- `toString("ascii")` leaves out the highest bit of a byte.
abbrev ascii : Bytes → Text
ascii [] = []
ascii (b ∷ bs) = b % 128 ∷ ascii bs

-- The samples of a pixel, by the type of its color.
abbrev samples : ℕ → ℕ
samples color =
    if color == 0 || color == 3
    then 1
    else if color == 2
    then 3
    else if color == 4
    then 2
    else if color == 6
    then 4
    else 0

abbrev is_allowed_depth : ℕ → ℕ → Bool
is_allowed_depth color depth =
    (depth == 8
      || depth == 16 && not (color == 3)
      || (depth == 1 || depth == 2 || depth == 4) && (color == 0 || color == 3))

abbrev bytes_of_row : ℕ → ℕ
bytes_of_row bits = (bits + 7) / 8 + 1

unfoldable png_dimensions : Bytes → Option Dimensions
unfolding same_bytes byte_at read_uint32_be from
png_dimensions bs =
    if ltb (length bs) 26
      || not (same_bytes (take 8 bs) png_signature)
      || not (same_bytes (ascii (take 4 (from 12 bs))) (b'I' ∷ b'H' ∷ b'D' ∷ b'R' ∷ []))
      || samples (byte_at 25 bs) == 0
      || not (is_allowed_depth (byte_at 25 bs) (byte_at 24 bs))
    then none
    else some (record {
      width = read_uint32_be 16 bs;
      height = read_uint32_be 20 bs;
      decoded_bytes = some (
          bytes_of_row (read_uint32_be 16 bs * samples (byte_at 25 bs) * byte_at 24 bs)
          * read_uint32_be 20 bs);
    })

abbrev or_none : Option (Option Dimensions) → Option Dimensions
or_none none = none
or_none (some d) = d

-- One round more than there are bytes.
unfoldable jpeg_dimensions : Bytes → Option Dimensions
unfolding byte_at scan
jpeg_dimensions bs =
    if ltb (length bs) 4 || not (byte_at 0 bs == 0xff) || not (byte_at 1 bs == 0xd8)
    then none
    else or_none (scan (suc (length bs)) (from 2 bs))

pub image_dimensions : Bytes → String → Option Dimensions
unfolding png_dimensions jpeg_dimensions
image_dimensions bs mime_type =
    if str_eq mime_type "image/png"
    then png_dimensions bs
    else if str_eq mime_type "image/jpeg"
    then jpeg_dimensions bs
    else none

abbrev decoded_size : Dimensions → ℕ
decoded_size d = elim d.decoded_bytes [ none ↦ d.width * d.height * 4 | some n ↦ n ]

abbrev pub is_fit : Dimensions → Bool
is_fit d =
    leb 1 d.width
    && leb 1 d.height
    && leb d.width 8192
    && leb d.height 8192
    && leb (d.width * d.height) 16000000
    && leb (decoded_size d) (64 * 1024 * 1024)

abbrev pub is_image_key : Entry → Bool
is_image_key e = str_eq e.key "type" || str_eq e.key "data" || str_eq e.key "mimeType"

pub record Image : Type 0 where
  pub content : String
  pub mime_type : String

abbrev pub is_text : String → Option Json → Bool
is_text s v = elim (text_in v) [ none ↦ false | some t ↦ str_eq t s ]

-- `decode` and `encode` are those of `Buffer`, from and to "base64".
module _ (decode : Text → Bytes) (encode : Bytes → Text) where
  -- The data of an image of a type, after images of so many bytes.
  unfoldable pub checked_content : ℕ → String → String → Input Image
  unfolding is_base64 same_bytes image_dimensions
  checked_content before mime_type content = do
    require invalid_images (
        leb 1 (utf16_length content)
        && leb (utf16_length content) 4194304
        && is_base64 (units content))
    require invalid_images (same_bytes (encode (decode (units content))) (units content))
    require invalid_images (leb (before + length (decode (units content))) max_input_image_bytes)
    dimensions ← or_throw invalid_images (image_dimensions (decode (units content)) mime_type)
    require invalid_images (is_fit dimensions)
    ok (record { content = content; mime_type = mime_type })

  -- An image, after images of so many bytes.
  unfoldable pub normalize_image : ℕ → Json → Input Image
  unfolding checked_content
  normalize_image before raw = do
    fields ← or_throw invalid_images (fields_in (some raw))
    require invalid_images (every is_image_key fields)
    require invalid_images (is_text "image" (get fields "type"))
    mime_type ← or_throw invalid_images (text_in (get fields "mimeType"))
    require invalid_images (str_eq mime_type "image/png" || str_eq mime_type "image/jpeg")
    content ← or_throw invalid_images (text_in (get fields "data"))
    checked_content before mime_type content

  unfoldable pub normalize_images : ℕ → List Json → Input (List Image)
  unfolding normalize_image
  normalize_images before [] = ok []
  normalize_images before (v ∷ vs) = do
    image ← normalize_image before v
    rest ← normalize_images (before + length (decode (units image.content))) vs
    ok (image ∷ rest)

  unfoldable pub normalize_input_images : Option Json → Input (List Image)
  unfolding normalize_images
  normalize_input_images value = elim (present value) [
    | none ↦ ok []
    | some v ↦ or_throw invalid_images (list_in (some v)) >>= λ vs.
        require invalid_images (leb (length vs) max_input_image_count) >>= λ u.
        normalize_images 0 vs
  ]

abbrev pub as_image : Image → Json
as_image i = object (
    field "type" (text "image")
      (field "data" (text i.content) (field "mimeType" (text i.mime_type) end)))
