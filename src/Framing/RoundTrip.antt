-- ===== src/Framing/RoundTrip.antt =====
-- What `encodeFrame` wrote (src/framing.mjs) comes out of `JsonLineDecoder` as it went in.
use persistent_harness.Prelude.{
  ℕ, ◌+◌, ◌≤◌, ◌≡◌, refl, ap, ◌∙◌, List, [], ◌∷◌, ◌++◌, append_assoc, append-nil, arith, length,
  length-append, concat, All, Outcome, ok, err, ◌>>=◌, >>=-inv, ok_inj,
}
use persistent_harness.Framing.{
  FrameError, empty_frame, singleton, fresh, read_json_line, strip_return, encode_frame,
}
use persistent_harness.Framing.Stream.{prefix, view, feed}
use persistent_harness.Framing.Chunks.{push_all, push_all-feed}

-- What is used of `JSON.stringify` and of its inverse, `JSON.parse` after UTF-8 decoding: a frame's
-- text holds no control character, so neither newline nor carriage return, it is not empty, and
-- reading it gives the frame back.
pub record Codec : Type 1 where
  pub Frame : Type 0
  pub write_frame : Frame → List ℕ
  pub read_line : List ℕ → Outcome FrameError Frame
  pub text_bytes : (f : Frame) → All (λ b. 32 ≤ b) (write_frame f)
  pub text_ne_nil : (f : Frame) → 1 ≤ length (write_frame f)
  pub read-write : (f : Frame) → read_line (write_frame f) ≡ ok f

module _ (codec : Codec) (max : ℕ) where
  open codec use {Frame, write_frame, read_line, text_bytes, text_ne_nil, read-write}

  -- The payloads of frames that the encoder accepts, one behind the other.
  unfoldable pub encode_all : List Frame → Outcome FrameError (List ℕ)
  encode_all [] = ok []
  encode_all (f ∷ fs) = do
    payload ← encode_frame write_frame max f
    rest ← encode_all fs
    ok (payload ++ rest)

  strip-text : (bs : List ℕ) → All (λ b. 32 ≤ b) bs → strip_return bs ≡ bs
  unfolding strip_return
  strip-text [] a = refl
  strip-text (b ∷ []) a = ground arith
  strip-text (b ∷ c ∷ bs) a = ap (λ l. b ∷ l) (strip-text (c ∷ bs) a.1)

  read-text : (f : Frame) → read_json_line read_line (write_frame f) ≡ ok (f ∷ [])
  unfolding read_json_line
  read-text f =
      rw (strip-text (write_frame f) (text_bytes f), read_json_line)
        (go (write_frame f) (text_ne_nil f) (read-write f))
    where
      go :
          (bs : List ℕ)
          → 1 ≤ length bs
          → read_line bs ≡ ok f
          → elim bs [ [] ↦ err empty_frame | c ∷ cs ↦ singleton read_line (read_line (c ∷ cs)) ]
            ≡ ok (f ∷ [])
      go [] h e = absurd (omega arith)
      go (c ∷ cs) h e = rw e

  -- A text that fits is held byte by byte up to its newline.
  feed-text :
      (held bs rest : List ℕ)
      → All (λ b. 32 ≤ b) bs
      → length held + length bs ≤ max
      → feed (read_json_line read_line) max held (bs ++ rest)
        ≡ feed (read_json_line read_line) max (held ++ bs) rest
  unfolding feed
  feed-text held [] rest a h = rw append-nil
  feed-text held (b ∷ bs) rest a h = ground (
    arith,
    feed-text (held ++ b ∷ []) bs rest a.1,
    append_assoc held (b ∷ []) bs,
    length-append held (b ∷ []),
  )

  feed-frame :
      (f : Frame) (rest : List ℕ)
      → length (write_frame f) ≤ max
      → feed (read_json_line read_line) max [] (write_frame f ++ 0x0a ∷ rest)
        ≡ prefix (f ∷ []) (feed (read_json_line read_line) max [] rest)
  feed-frame f rest h =
      feed-text [] (write_frame f) (0x0a ∷ rest) (text_bytes f) (omega arith)
      ∙ unfold feed in rw (read-text f)

  encode_frame-eq :
      (f : Frame) (payload : List ℕ)
      → encode_frame write_frame max f ≡ ok payload
      → (length (write_frame f) ≤ max) × (payload ≡ write_frame f ++ 0x0a ∷ [])
  unfolding encode_frame
  encode_frame-eq f payload h = ground (arith, length-append (write_frame f) (0x0a ∷ []))

  feed-encode_all :
      (frames : List Frame) (bytes : List ℕ)
      → encode_all frames ≡ ok bytes
      → feed (read_json_line read_line) max [] bytes ≡ ok (frames, [])
  unfolding encode_all
  feed-encode_all [] bytes h = rw (← ok_inj h) (unfold feed in refl)
  feed-encode_all (f ∷ fs) bytes h =
      let (payload, hp, h') = >>=-inv (encode_frame write_frame max f) _ bytes h in
      let (rest, hr, e) = >>=-inv (encode_all fs) (λ rest. ok (payload ++ rest)) bytes h' in
      let (fits, shape) = encode_frame-eq f payload hp in
      rw (← ok_inj e, shape, append_assoc (write_frame f) (0x0a ∷ []) rest)
        (rw (feed-frame f rest fits) (rw (feed-encode_all fs rest hr)))

  -- Frames that the encoder accepts come out of a fresh decoder as they went in, in order and with
  -- no byte left over, however their payloads are cut into chunks.
  pub push_all-encode_all :
      (frames : List Frame) (chunks : List (List ℕ))
      → encode_all frames ≡ ok (concat chunks)
      → view (push_all (read_json_line read_line) max fresh chunks) ≡ ok (frames, [])
  push_all-encode_all frames chunks h =
      push_all-feed (read_json_line read_line) max fresh chunks refl
      ∙ feed-encode_all frames (concat chunks) h
