-- ===== src/Tests/InputRuns.antt =====
-- The theorems on src/input-images.mjs, src/input-location.mjs and src/conversation-birth.mjs at
-- values that are accepted.
use persistent_harness.Prelude.{
  ℕ, ◌≤◌, ◌<◌, ◌≡◌, refl, String, Bool, true, Option, some, List, [], ◌∷◌, ok, arith, inl,
}
use persistent_harness.Cron.Text.{Text}
use persistent_harness.Js.Values.{Json, minus, number, text, array, object, nil, item, field, end}
use persistent_harness.Inputs.Jpeg.{Bytes}
use persistent_harness.Inputs.Scanned.{IsEnded, scan-IsEnded}
use persistent_harness.Inputs.Locations.{Location, normalize_input_location}
use persistent_harness.Inputs.Images.{
  Image, max_input_image_count, max_input_image_bytes, normalize_input_images,
}
use persistent_harness.Inputs.Attached.{total_bytes, normalize_input_images-bounds}
use persistent_harness.Inputs.Normal.{location_fields, normalize_input_location-again}
use persistent_harness.Conversation.{Birth, conversation_birth, births_of, reset, next}
use persistent_harness.Conversation.Clock.{next-later}

abbrev jpeg : Bytes
jpeg = 0xff ∷ 0xc0 ∷ 0 ∷ 8 ∷ 8 ∷ 0 ∷ 2 ∷ 0 ∷ 3 ∷ 1 ∷ []

scan-IsEnded_example : IsEnded 11 30 jpeg
scan-IsEnded_example = scan-IsEnded 11 30 jpeg (omega arith) (omega arith)

abbrev png : Bytes
png =
    0x89 ∷ 0x50 ∷ 0x4e ∷ 0x47 ∷ 0x0d ∷ 0x0a ∷ 0x1a ∷ 0x0a ∷ 0 ∷ 0 ∷ 0 ∷ 13 ∷ b'I' ∷ b'H' ∷ b'D'
    ∷ b'R' ∷ 0 ∷ 0 ∷ 0 ∷ 2 ∷ 0 ∷ 0 ∷ 0 ∷ 3 ∷ 8 ∷ 2 ∷ []

abbrev decode : Text → Bytes
decode cs = png

abbrev encode : Bytes → Text
encode bs = b'i' ∷ b'V' ∷ b'B' ∷ b'O' ∷ []

abbrev raw_image : Json
raw_image = object (
    field "type" (text "image")
      (field "data" (text "iVBO") (field "mimeType" (text "image/png") end)))

abbrev image : Image
image = record { content = "iVBO"; mime_type = "image/png" }

image_run :
    normalize_input_images decode encode (some (array (item raw_image nil))) ≡ ok (image ∷ [])
unfolding normalize_input_images persistent_harness.Js.Values.items_of
    persistent_harness.Js.Values.entries_of persistent_harness.Js.Values.get
    persistent_harness.Js.Texts.units
image_run = refl

normalize_input_images-bounds_example :
    (1 ≤ max_input_image_count) × (total_bytes decode encode (image ∷ []) ≤ max_input_image_bytes)
normalize_input_images-bounds_example =
    normalize_input_images-bounds decode encode (some (array (item raw_image nil))) (image ∷ [])
      image_run

abbrev raw_location : Option Json
raw_location = some (
    object (
      field "latitude" (minus 0 0) (
        field "longitude" (minus 181 1)
          (field "accuracy" (number 5 0) (field "timestamp" (number 7 0) end)))))

abbrev location : Location
location = record {
  latitude = number 0 0;
  longitude = minus 181 1;
  accuracy = number 5 0;
  timestamp = 7;
}

location_run : normalize_input_location raw_location ≡ ok (some location)
unfolding normalize_input_location persistent_harness.Js.Values.entries_of
    persistent_harness.Js.Values.get
location_run = refl

normalize_input_location-again_example :
    normalize_input_location (some (object (location_fields location))) ≡ ok (some location)
normalize_input_location-again_example =
    normalize_input_location-again raw_location location location_run

abbrev is_iso : String → Bool
is_iso s = true

abbrev raw_birth : Json
raw_birth = object (
    field "version" (number 1 0)
      (field "createdAt" (text "t4") (field "sequence" (number 4 0) end)))

abbrev history : List Json
history =
    object (
      field "type" (text "custom") (
        field "customType" (text "persistent-harness.progress-v1")
          (field "data" (object (field "harnessBirth" raw_birth end)) end)))
    ∷ []

abbrev fourth : Birth
fourth = record { created_at = "t4"; sequence = 4 }

abbrev fifth : Birth
fifth = record { created_at = "t5"; sequence = 5 }

next_run : next is_iso (reset is_iso history) "t5" ≡ (some fifth, 5)
unfolding next persistent_harness.Js.Values.get persistent_harness.Js.Values.entries_of reset
    persistent_harness.Js.Texts.units
next_run = refl

birth_run : conversation_birth is_iso (some raw_birth) ≡ some fourth
unfolding conversation_birth persistent_harness.Js.Values.get
    persistent_harness.Js.Values.entries_of persistent_harness.Js.Texts.units
birth_run = refl

births_run : births_of history ≡ some raw_birth ∷ []
unfolding births_of persistent_harness.Js.Values.get persistent_harness.Js.Values.entries_of
births_run = refl

next-later_example : (4 < 5) × (◌≡◌ {A = ℕ} 5 5)
unfolding births_of persistent_harness.Js.Values.get persistent_harness.Js.Values.entries_of
next-later_example =
    next-later is_iso history "t5" fifth 5 (some raw_birth) fourth next_run (inl refl) birth_run
