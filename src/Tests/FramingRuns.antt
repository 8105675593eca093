-- ===== src/Tests/FramingRuns.antt =====
-- Runs of the frame decoder (src/framing.mjs).
use persistent_harness.Prelude.{ℕ, ◌≤◌, ◌≡◌, refl, List, [], ◌∷◌, arith, concat, Outcome, ok, err}
use persistent_harness.Framing.{FrameError, fresh, read_json_line, encode_frame}
use persistent_harness.Framing.Stream.{view, feed}
use persistent_harness.Framing.Chunks.{push_all, push_all-feed}
use persistent_harness.Framing.RoundTrip.{Codec, encode_all, push_all-encode_all}

-- Two frames, `0` and `1`, written as one digit each.
data Digit : Type 0 where
  nought one : Digit

abbrev write_digit : Digit → List ℕ
write_digit nought = 0x30 ∷ []
write_digit one = 0x31 ∷ []

abbrev read_digit : List ℕ → Outcome FrameError Digit
read_digit [] = err FrameError.invalid_json
read_digit (b ∷ bs) = elim bs [
  | [] ↦ elim (Prim.Native.Nat.compare b 0x30) [
    | Prim.Native.Nat.Ordering.eq ↦ ok nought
    | _ ↦ ok one
  ]
  | _ ↦ err FrameError.invalid_json
]

digit_bytes : (d : Digit) → persistent_harness.Prelude.All (λ b. 32 ≤ b) (write_digit d)
digit_bytes nought = omega arith
digit_bytes one = omega arith

digit_ne_nil : (d : Digit) → 1 ≤ persistent_harness.Prelude.length (write_digit d)
digit_ne_nil nought = omega arith
digit_ne_nil one = omega arith

read-write_digit : (d : Digit) → read_digit (write_digit d) ≡ ok d
read-write_digit nought = refl
read-write_digit one = refl

abbrev digits : Codec
digits = record {
  Frame = Digit;
  write_frame = write_digit;
  read_line = read_digit;
  text_bytes = digit_bytes;
  text_ne_nil = digit_ne_nil;
  read-write = read-write_digit;
}

-- The payloads of two frames, cut in the middle of the second.
abbrev two_chunks : List (List ℕ)
two_chunks = (0x31 ∷ 0x0a ∷ 0x30 ∷ []) ∷ (0x0a ∷ []) ∷ []

push_all-feed_example :
    view (push_all (read_json_line read_digit) 8 fresh two_chunks)
    ≡ feed (read_json_line read_digit) 8 [] (concat two_chunks)
push_all-feed_example = push_all-feed (read_json_line read_digit) 8 fresh two_chunks refl

push_all-encode_all_example :
    view (push_all (read_json_line read_digit) 8 fresh two_chunks) ≡ ok (one ∷ nought ∷ [], [])
unfolding encode_all encode_frame
push_all-encode_all_example = push_all-encode_all digits 8 (one ∷ nought ∷ []) two_chunks refl
