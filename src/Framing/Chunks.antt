-- ===== src/Framing/Chunks.antt =====
-- A stream in chunks (src/framing.mjs): where the chunks are cut does not matter, and what
-- `encodeFrame` wrote comes out as the frames that went in.
use persistent_harness.Prelude.{
  ℕ, ◌+◌, ◌≡◌, refl, sym, ap, ◌∙◌, Bool-cases, inl, inr, List, [], ◌∷◌, ◌++◌, append_assoc, ltb,
  ◌==◌, length, concat, Outcome, ok, err, ◌>>=◌,
}
use persistent_harness.Framing.{FrameError, Decoder, Call, push_lines}
use persistent_harness.Framing.Stream.{Read, prefix, view, IsCounted, feed, view-push}
use persistent_harness.Framing.Counted.{Counts, push_lines-Counts}

module _ {J : Type 0} (deliver : List ℕ → Outcome FrameError (List J)) (max : ℕ) where
  abbrev next_chunk : List J → Call (List J) → Call (List J)
  next_chunk vs (ok ws, d) = (ok (vs ++ ws), d)
  next_chunk vs (err e, d) = (err e, d)

  -- A client that pushes each chunk as it comes, up to the first error.
  pub push_all : Decoder → List (List ℕ) → Call (List J)
  push_all d [] = (ok [], d)
  push_all d (chunk ∷ chunks) =
      let (r, d') = push_lines deliver max d chunk in
      elim r [ ok vs ↦ next_chunk vs (push_all d' chunks) | err e ↦ (err e, d') ]

  prefix-bind :
      (vs : List J) (r : Read J) (ys : List ℕ)
      → prefix vs (r >>= λ out. prefix out.0 (feed deliver max out.1 ys))
        ≡ (prefix vs r >>= λ out. prefix out.0 (feed deliver max out.1 ys))
  prefix-bind vs (err e) ys = refl
  prefix-bind vs (ok (ws, held)) ys = go (feed deliver max held ys)
    where
      go : (r : Read J) → prefix vs (prefix ws r) ≡ prefix (vs ++ ws) r
      go (ok out) = ap (λ l. ok (l, out.1)) (sym (append_assoc vs ws out.0))
      go (err e) = refl

  deliver-bind :
      (r : Outcome FrameError (List J)) (s : Read J) (ys : List ℕ)
      → (r >>= λ vs. prefix vs (s >>= λ out. prefix out.0 (feed deliver max out.1 ys)))
        ≡ (r >>= (λ vs. prefix vs s) >>= λ out. prefix out.0 (feed deliver max out.1 ys))
  deliver-bind (ok vs) s ys = prefix-bind vs s ys
  deliver-bind (err e) s ys = refl

  prefix-nil : (r : Read J) → prefix [] r ≡ r
  prefix-nil (ok out) = refl
  prefix-nil (err e) = refl

  feed-append :
      (held xs ys : List ℕ)
      → feed deliver max held (xs ++ ys)
        ≡ (feed deliver max held xs >>= λ out. prefix out.0 (feed deliver max out.1 ys))
  unfolding feed
  feed-append held [] ys = sym (prefix-nil (feed deliver max held ys))
  feed-append held (b ∷ xs) ys = elim (Bool-cases (b == 0x0a)) [
    | inl e ↦ rw (e, feed-append [] xs ys) (deliver-bind (deliver held) (feed deliver max [] xs) ys)
    | inr e ↦ rw e (elim (Bool-cases (ltb max (length held + 1))) [
      | inl long ↦ rw long
      | inr short ↦ rw short (feed-append (held ++ b ∷ []) xs ys)
    ])
  ]

  after_chunk :
      (r : Outcome FrameError (List J)) (d : Decoder) (chunks : List (List ℕ)) (s : Read J)
      → Counts {A = List J} (r, d)
      → view (r, d) ≡ s
      → (IsCounted d → view (push_all d chunks) ≡ feed deliver max (concat d.parts) (concat chunks))
      → view (elim r [ ok vs ↦ next_chunk vs (push_all d chunks) | err e ↦ (err e, d) ])
        ≡ (s >>= λ out. prefix out.0 (feed deliver max out.1 (concat chunks)))
  after_chunk (err e) d chunks s c v ih = rw (← v)
  after_chunk (ok vs) d chunks s c v ih = rw (← v, ← ih c) (go (push_all d chunks))
    where
      go : (call : Call (List J)) → view (next_chunk vs call) ≡ prefix vs (view call)
      go (ok ws, d') = refl
      go (err e, d') = refl

  -- However the bytes are cut into chunks, the client gets the frames of the stream, or its error.
  pub push_all-feed :
      (d : Decoder) (chunks : List (List ℕ))
      → IsCounted d
      → view (push_all d chunks) ≡ feed deliver max (concat d.parts) (concat chunks)
  unfolding push_all feed
  push_all-feed d [] c = refl
  push_all-feed d (chunk ∷ chunks) c =
      let (r, d') = push_lines deliver max d chunk in
      after_chunk r d' chunks (feed deliver max (concat d.parts) chunk)
        (push_lines-Counts deliver max d chunk c) (view-push deliver max d chunk c)
        (push_all-feed d' chunks)
      ∙ sym (feed-append (concat d.parts) chunk (concat chunks))
