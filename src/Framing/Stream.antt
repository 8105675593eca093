-- ===== src/Framing/Stream.antt =====
-- A stream of bytes read one at a time is what `push` promises of src/framing.mjs: how the bytes
-- come in chunks, and in how many parts a line is held, does not show.
use persistent_harness.Prelude.{
  ℕ, ◌+◌, ◌≡◌, refl, sym, ap, ◌∙◌, Bool-cases, ◌⊎◌, inl, inr, List, [], ◌∷◌, ◌++◌, append_assoc,
  append-nil, arith, ltb, ◌==◌, if◌then◌else◌, length, length-append, concat, concat-append,
  Outcome, ok, err, ◌>>=◌,
}
use persistent_harness.Framing.{
  FrameError, frame_too_large, Decoder, fresh, Call, add_byte, segments, append, delivered, round,
  rounds, push_lines,
}

abbrev pub Read : Type 0 → Type 0
Read J = Outcome FrameError (List J × List ℕ)

module _ {J : Type 0} where
  abbrev pub prefix : List J → Read J → Read J
  prefix vs r = r >>= λ out. ok (vs ++ out.0, out.1)

  -- What a client sees of a call: the frames, and the bytes that wait for their newline.
  abbrev pub view : Call (List J) → Read J
  view (ok vs, d) = ok (vs, concat d.parts)
  view (err e, d) = err e

-- `#bytes` counts the bytes in `#parts`.
abbrev pub IsCounted : Decoder → Type 0
IsCounted d = d.bytes ≡ length (concat d.parts)

module _ {J : Type 0} (deliver : List ℕ → Outcome FrameError (List J)) (max : ℕ) where
  -- The specification: a line ends at a newline, and a line of more than `max` bytes is refused.
  unfoldable pub feed : List ℕ → List ℕ → Read J
  feed held [] = ok ([], held)
  feed held (b ∷ bs) =
      let at_newline : Read J = deliver held >>= λ vs. prefix vs (feed [] bs) in
      let later : Read J = feed (held ++ b ∷ []) bs in
      if b == 0x0a
      then at_newline
      else if ltb max (length held + 1)
      then err frame_too_large
      else later

  -- The same by segments.
  abbrev hold : List ℕ → List ℕ → Outcome FrameError (List ℕ)
  hold held [] = ok held
  hold held (b ∷ bs) =
      if ltb max (length held + length (b ∷ bs)) then err frame_too_large else ok (held ++ b ∷ bs)

  feed_segments : List ℕ → List (List ℕ) → List ℕ → Read J
  feed_segments held [] tail = hold held tail >>= λ held'. ok ([], held')
  feed_segments held (line ∷ lines) tail =
      let rest = feed_segments [] lines tail in
      hold held line >>= λ whole. deliver whole >>= λ vs. prefix vs rest

  hold-add_byte :
      (held : List ℕ) (b : ℕ) (part : List ℕ)
      → (if ltb max (length held + 1) then err frame_too_large else hold (held ++ b ∷ []) part)
        ≡ hold held (b ∷ part)
  hold-add_byte held b [] = refl
  hold-add_byte held b (c ∷ part) =
      ground (arith, length-append held (b ∷ []), append_assoc held (b ∷ []) (c ∷ part))

  feed_segments-add_byte :
      (held : List ℕ) (b : ℕ) (lines : List (List ℕ)) (tail : List ℕ)
      → (if ltb max (length held + 1)
          then err frame_too_large
          else feed_segments (held ++ b ∷ []) lines tail)
        ≡ feed_segments held (add_byte b (lines, tail)).0 (add_byte b (lines, tail)).1
  unfolding feed_segments
  feed_segments-add_byte held b [] tail = ground (arith, hold-add_byte held b tail)
  feed_segments-add_byte held b (line ∷ lines) tail = ground (arith, hold-add_byte held b line)

  feed-segments :
      (held source : List ℕ)
      → feed held source ≡ feed_segments held (segments source).0 (segments source).1
  unfolding feed segments feed_segments
  feed-segments held [] = refl
  feed-segments held (b ∷ bs) = elim (Bool-cases (b == 0x0a)) [
    | inl e ↦ rw e (rw (feed-segments [] bs))
    | inr e ↦ rw e (
        rw (feed-segments (held ++ b ∷ []) bs)
          (feed_segments-add_byte held b (segments bs).0 (segments bs).1))
  ]

  append-hold :
      (d : Decoder) (part : List ℕ)
      → IsCounted d
      → (hold (concat d.parts) part ≡ ok (concat (append max d part).1.parts))
          × ((append max d part).0 ≡ ok tt)
          × IsCounted (append max d part).1
        ⊎ (hold (concat d.parts) part ≡ err frame_too_large)
          × ((append max d part).0 ≡ err frame_too_large)
  unfolding append
  append-hold d [] c = inl (refl, refl, c)
  append-hold d (b ∷ part) c =
      ground (arith, concat-append d.parts (b ∷ part), length-append (concat d.parts) (b ∷ part))

  prefix-prefix : (vs ws : List J) (r : Read J) → prefix (vs ++ ws) r ≡ prefix vs (prefix ws r)
  prefix-prefix vs ws (ok out) = ap (λ l. ok (l, out.1)) (append_assoc vs ws out.0)
  prefix-prefix vs ws (err e) = refl

  after_line :
      (r : Outcome FrameError (List J)) (lines : List (List ℕ)) (tail : List ℕ) (values : List J)
      → ((vs : List J)
          → view (rounds deliver max fresh lines tail vs) ≡ prefix vs (feed_segments [] lines tail))
      → view (elim r [
        | ok vs ↦ rounds deliver max fresh lines tail (values ++ vs)
        | err e ↦ (err e, fresh)
      ])
        ≡ prefix values (r >>= λ vs. prefix vs (feed_segments [] lines tail))
  after_line (ok vs) lines tail values ih =
      ih (values ++ vs) ∙ prefix-prefix values vs (feed_segments [] lines tail)
  after_line (err e) lines tail values ih = refl

  after_append :
      (r : Outcome FrameError (Unit {0})) (d : Decoder) (held : Outcome FrameError (List ℕ))
      (lines : List (List ℕ)) (tail : List ℕ) (values : List J)
      → ((held ≡ ok (concat d.parts)) × (r ≡ ok tt) × IsCounted d
          ⊎ (held ≡ err frame_too_large) × (r ≡ err frame_too_large))
      → ((vs : List J)
          → view (rounds deliver max fresh lines tail vs) ≡ prefix vs (feed_segments [] lines tail))
      → view (
          let out = delivered deliver max (r, d) in
          elim out.0 [
            | ok vs ↦ rounds deliver max out.1 lines tail (values ++ vs)
            | err e ↦ (err e, out.1)
          ])
        ≡ prefix values
            (held >>= λ whole. deliver whole >>= λ vs. prefix vs (feed_segments [] lines tail))
  after_append (ok _) d held lines tail values (inl (e, _, _)) ih =
      rw e (after_line (deliver (concat d.parts)) lines tail values ih)
  after_append (ok _) d held lines tail values (inr (_, e)) ih = cc
  after_append (err x) d held lines tail values (inl (_, e, _)) ih = cc
  after_append (err x) d held lines tail values (inr (h, e)) ih = cc

  -- One more round of the loop adds its frames behind those that are there.
  view-rounds :
      (d : Decoder) (lines : List (List ℕ)) (tail : List ℕ) (values : List J)
      → IsCounted d
      → view (rounds deliver max d lines tail values)
        ≡ prefix values (feed_segments (concat d.parts) lines tail)
  unfolding rounds round feed_segments
  view-rounds d [] tail values c = ground (arith, append-hold d tail c, append-nil values)
  view-rounds d (line ∷ lines) tail values c =
      let (r, d') = append max d line in
      after_append r d' (hold (concat d.parts) line) lines tail values (append-hold d line c)
        (λ vs. view-rounds fresh lines tail vs refl)

  prefix-nil : (r : Read J) → prefix [] r ≡ r
  prefix-nil (ok out) = refl
  prefix-nil (err e) = refl

  -- `push` reads what is held and the chunk as one stream, error for error.
  pub view-push :
      (d : Decoder) (source : List ℕ)
      → IsCounted d
      → view (push_lines deliver max d source) ≡ feed (concat d.parts) source
  unfolding push_lines
  view-push d source c =
      view-rounds d (segments source).0 (segments source).1 [] c
      ∙ (prefix-nil _ ∙ sym (feed-segments (concat d.parts) source))
