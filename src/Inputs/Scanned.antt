-- ===== src/Inputs/Scanned.antt =====
-- The loop of `imageDimensions` of src/input-images.mjs ends.
use persistent_harness.Prelude.{
  ℕ, zero, suc, ◌≤◌, ◌<◌, ◌≡◌, refl, arith, Option, none, some, [], ◌∷◌, length,
}
use persistent_harness.Inputs.Jpeg.{
  Bytes, Dimensions, from, read_uint16_be, skip_fill, Step, stop, found, go_on, segment, after_fill,
  round, scan,
}

length-from : (n : ℕ) (bs : Bytes) → length (from n bs) ≤ length bs
unfolding from
length-from zero bs = omega arith
length-from (suc n) [] = omega arith
length-from (suc n) (b ∷ bs) = let ih = length-from n bs in omega arith

length-skip_fill : (bs : Bytes) → length (skip_fill bs) ≤ length bs
unfolding skip_fill
length-skip_fill [] = omega arith
length-skip_fill (b ∷ bs) = let ih = length-skip_fill bs in ground arith

-- A round that goes on has fewer bytes before it than the last.
abbrev IsShorter : ℕ → Step → Type 0
IsShorter n stop = Unit
IsShorter n (found d) = Unit
IsShorter n (go_on rest) = length rest < n

segment-IsShorter : (bs : Bytes) (marker n : ℕ) → length bs < n → IsShorter n (segment bs marker)
unfolding segment
segment-IsShorter bs marker n h = let l = length-from (read_uint16_be 0 bs) bs in ground arith

after_fill-IsShorter : (bs : Bytes) (n : ℕ) → length bs ≤ n → IsShorter n (after_fill bs)
unfolding after_fill
after_fill-IsShorter [] n h = tt
after_fill-IsShorter (marker ∷ bs) n h =
    let s = segment-IsShorter bs marker n (omega arith) in ground arith

round-IsShorter : (bs : Bytes) → IsShorter (length bs) (round bs)
unfolding round
round-IsShorter [] = tt
round-IsShorter (b ∷ bs) =
    let s =
      after_fill-IsShorter (skip_fill (b ∷ bs)) (length (b ∷ bs)) (length-skip_fill (b ∷ bs)) in
    ground arith

-- What is found behind a round.
abbrev behind : ℕ → Step → Option (Option Dimensions)
behind fuel stop = some none
behind fuel (found d) = some (some d)
behind fuel (go_on rest) = scan fuel rest

-- The loop ends within the first number of rounds, and with the second too and in the same way.
abbrev pub IsEnded : ℕ → ℕ → Bytes → Type 0
IsEnded f g bs =
    (result : Option Dimensions) × (scan f bs ≡ some result) × (scan g bs ≡ some result)

behind-ended :
    (f g n : ℕ) (s : Step)
    → IsShorter n s
    → ((rest : Bytes) → length rest < n → IsEnded f g rest)
    → (result : Option Dimensions) × (behind f s ≡ some result) × (behind g s ≡ some result)
behind-ended f g n stop h ends = (none, refl, refl)
behind-ended f g n (found d) h ends = (some d, refl, refl)
behind-ended f g n (go_on rest) h ends = ends rest h

-- The loop over a JPEG ends: with any number of rounds above the number of bytes it comes to a result,
-- and to the same one.
pub scan-IsEnded : (f g : ℕ) (bs : Bytes) → length bs < f → length bs < g → IsEnded f g bs
unfolding scan
scan-IsEnded zero g bs hf hg = absurd (omega arith)
scan-IsEnded (suc f) zero bs hf hg = absurd (omega arith)
scan-IsEnded (suc f) (suc g) bs hf hg =
    behind-ended f g (length bs) (round bs) (round-IsShorter bs)
      (λ rest h. scan-IsEnded f g rest (omega arith) (omega arith))
