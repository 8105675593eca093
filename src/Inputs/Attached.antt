-- ===== src/Inputs/Attached.antt =====
-- What src/input-location.mjs and src/input-images.mjs let through.
use persistent_harness.Prelude.{
  ℕ, suc, ◌+◌, ◌≤◌, ◌≡◌, refl, ap, subst, arith, String, Bool, true, false, ◌&&◌, ◌||◌, Option,
  some, List, [], ◌∷◌, str_eq, leb, length, every, inl, inr, ok, >>=-elim, ◌>>=◌, ok_inj,
  Option-cases,
}
use persistent_harness.Cron.Text.{Text}
use persistent_harness.Js.Texts.{units, utf16_length}
use persistent_harness.Js.Values.{Json, get, fields_in, list_in, text_in, present}
use persistent_harness.Inputs.Jpeg.{Bytes}
use persistent_harness.Inputs.Locations.{InputError, require, or_throw}
use persistent_harness.Inputs.Images.{
  Image, is_image_key, is_text, is_base64, same_bytes, image_dimensions, is_fit,
  max_input_image_bytes, max_input_image_count, checked_content, normalize_image, normalize_images,
  normalize_input_images,
}

pub require-inv : (e : InputError) (b : Bool) (u : Unit {0}) → require e b ≡ ok u → b ≡ true
require-inv e true u h = refl
require-inv e false u h = cc

module _ (decode : Text → Bytes) (encode : Bytes → Text) where
  -- The bytes of images.
  abbrev pub total_bytes : List Image → ℕ
  total_bytes [] = 0
  total_bytes (i ∷ is) = length (decode (units i.content)) + total_bytes is

  checked_content-bytes :
      (before : ℕ) (mime content : String) (i : Image)
      → checked_content decode encode before mime content ≡ ok i
      → before + length (decode (units i.content)) ≤ max_input_image_bytes
  unfolding checked_content
  checked_content-bytes before mime content i h =
      >>=-elim
        (require InputError.invalid_images (
          leb 1 (utf16_length content)
          && leb (utf16_length content) 4194304
          && is_base64 (units content)))
        _ i h
        λ _ _ h1.
          >>=-elim
            (require InputError.invalid_images
              (same_bytes (encode (decode (units content))) (units content)))
            _ i h1
            λ _ _ h2.
              >>=-elim
                (require InputError.invalid_images
                  (leb (before + length (decode (units content))) max_input_image_bytes))
                _ i h2
                λ u g h3.
                  >>=-elim
                    (or_throw InputError.invalid_images
                      (image_dimensions (decode (units content)) mime))
                    _ i h3
                    λ d _ h4.
                      >>=-elim (require InputError.invalid_images (is_fit d)) _ i h4 λ _ _ h5.
                        subst
                          (λ x. before + length (decode (units x.content)) ≤ max_input_image_bytes)
                          (ok_inj h5)
                          (few (before + length (decode (units content))) (require-inv _ _ u g))
    where
      few : (n : ℕ) → leb n max_input_image_bytes ≡ true → n ≤ max_input_image_bytes
      few n g = ground arith

  normalize_image-bytes :
      (before : ℕ) (v : Json) (i : Image)
      → normalize_image decode encode before v ≡ ok i
      → before + length (decode (units i.content)) ≤ max_input_image_bytes
  unfolding normalize_image
  normalize_image-bytes before v i h =
      >>=-elim (or_throw InputError.invalid_images (fields_in (some v))) _ i h λ fields _ h1.
        >>=-elim (require InputError.invalid_images (every is_image_key fields)) _ i h1 λ _ _ h2.
          >>=-elim (require InputError.invalid_images (is_text "image" (get fields "type"))) _ i h2
            λ _ _ h3.
              >>=-elim (or_throw InputError.invalid_images (text_in (get fields "mimeType"))) _ i h3
                λ mime _ h4.
                  >>=-elim
                    (require InputError.invalid_images
                      (str_eq mime "image/png" || str_eq mime "image/jpeg"))
                    _ i h4
                    λ _ _ h5.
                      >>=-elim (or_throw InputError.invalid_images (text_in (get fields "data"))) _
                        i h5 λ content _ h6. checked_content-bytes before mime content i h6

  normalize_images-bytes :
      (before : ℕ) (vs : List Json) (out : List Image)
      → before ≤ max_input_image_bytes
      → normalize_images decode encode before vs ≡ ok out
      → (before + total_bytes out ≤ max_input_image_bytes) × (length out ≡ length vs)
  unfolding normalize_images
  normalize_images-bytes before [] out b h =
      subst (λ x. (before + total_bytes x ≤ max_input_image_bytes) × (length x ≡ 0)) (ok_inj h)
        (omega arith, refl)
  normalize_images-bytes before (v ∷ vs) out b h =
      >>=-elim (normalize_image decode encode before v) _ out h λ i e h1.
        >>=-elim (normalize_images decode encode (before + length (decode (units i.content))) vs) _
          out h1
          λ rest r h2.
            let (total, same) =
              normalize_images-bytes (before + length (decode (units i.content))) vs rest
                (normalize_image-bytes before v i e) r in
            subst
              (λ x. (before + total_bytes x ≤ max_input_image_bytes) × (length x ≡ length (v ∷ vs)))
              (ok_inj h2) (omega arith, ap suc same)

  -- The images that are accepted are four at most, and together they have at most three mebibytes.
  pub normalize_input_images-bounds :
      (v : Option Json) (out : List Image)
      → normalize_input_images decode encode v ≡ ok out
      → (length out ≤ max_input_image_count) × (total_bytes out ≤ max_input_image_bytes)
  unfolding normalize_input_images
  normalize_input_images-bounds v out h = elim (Option-cases (present v)) [
    | inl e ↦
        subst (λ x. (length x ≤ max_input_image_count) × (total_bytes x ≤ max_input_image_bytes))
          (ok_inj (rw (e, normalize_input_images) at h)) (omega arith, omega arith)
    | inr (w, e) ↦ bounds w (rw (e, normalize_input_images) at h)
  ]
    where
      few : (n : ℕ) → leb n max_input_image_count ≡ true → n ≤ max_input_image_count
      few n g = ground arith

      bounds :
          (w : Json)
          → (or_throw InputError.invalid_images (list_in (some w)) >>= λ vs.
              require InputError.invalid_images (leb (length vs) max_input_image_count) >>= λ u.
              normalize_images decode encode 0 vs)
            ≡ ok out
          → (length out ≤ max_input_image_count) × (total_bytes out ≤ max_input_image_bytes)
      bounds w g =
          >>=-elim (or_throw InputError.invalid_images (list_in (some w))) _ out g λ vs _ g1.
            >>=-elim (require InputError.invalid_images (leb (length vs) max_input_image_count)) _
              out g1
              λ u k g2.
                let (total, same) = normalize_images-bytes 0 vs out (omega arith) g2 in
                let short = few (length vs) (require-inv _ _ u k) in (omega arith, omega arith)
