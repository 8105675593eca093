-- ===== src/Framing/Counted.antt =====
-- `#bytes` of src/framing.mjs keeps counting the bytes of `#parts`.
use persistent_harness.Prelude.{
  ℕ, refl, List, [], ◌∷◌, ◌++◌, arith, length-append, concat, concat-append, Outcome, ok, err,
}
use persistent_harness.Framing.{
  FrameError, Decoder, fresh, Call, segments, append, delivered, kept, round, rounds, push_lines,
}
use persistent_harness.Framing.Stream.{IsCounted}

-- After a call that did not throw.
abbrev pub Counts {ℓ} : {A : Type ℓ} → Call A → Type 0
Counts (ok a, d) = IsCounted d
Counts (err e, d) = Unit

module _ {J : Type 0} (deliver : List ℕ → Outcome FrameError (List J)) (max : ℕ) where
  append-Counts : (d : Decoder) (part : List ℕ) → IsCounted d → Counts (append max d part)
  unfolding append
  append-Counts d [] c = c
  append-Counts d (b ∷ part) c =
      ground (arith, concat-append d.parts (b ∷ part), length-append (concat d.parts) (b ∷ part))

  delivered-Counts :
      (r : Outcome FrameError (Unit {0})) (d : Decoder) (lines : List (List ℕ)) (tail : List ℕ)
      (values : List J)
      → ((vs : List J) → Counts (rounds deliver max fresh lines tail vs))
      → Counts (
          let out = delivered deliver max (r, d) in
          elim out.0 [
            | ok vs ↦ rounds deliver max out.1 lines tail (values ++ vs)
            | err e ↦ (err e, out.1)
          ])
  delivered-Counts (err e) d lines tail values ih = tt
  delivered-Counts (ok _) d lines tail values ih = go (deliver (concat d.parts))
    where
      go :
          (r : Outcome FrameError (List J))
          → Counts (elim r [
            | ok vs ↦ rounds deliver max fresh lines tail (values ++ vs)
            | err e ↦ (err e, fresh)
          ])
      go (ok vs) = ih (values ++ vs)
      go (err e) = tt

  last-Counts :
      (values : List J) (out : Outcome FrameError (Unit {0}) × Decoder)
      → Counts out
      → Counts (kept deliver max values out)
  last-Counts values (ok _, d) c = c
  last-Counts values (err e, d) c = tt

  rounds-Counts :
      (d : Decoder) (lines : List (List ℕ)) (tail : List ℕ) (values : List J)
      → IsCounted d
      → Counts (rounds deliver max d lines tail values)
  unfolding rounds round
  rounds-Counts d [] tail values c = last-Counts values (append max d tail) (append-Counts d tail c)
  rounds-Counts d (line ∷ lines) tail values c =
      let (r, d') = append max d line in
      delivered-Counts r d' lines tail values λ vs. rounds-Counts fresh lines tail vs refl

  pub push_lines-Counts :
      (d : Decoder) (source : List ℕ) → IsCounted d → Counts (push_lines deliver max d source)
  unfolding push_lines
  push_lines-Counts d source c = rounds-Counts d (segments source).0 (segments source).1 [] c
