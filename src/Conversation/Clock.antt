-- ===== src/Conversation/Clock.antt =====
-- The births that the clock of src/conversation-birth.mjs gives.
use persistent_harness.Prelude.{
  ℕ, ◌+◌, ◌≤◌, ◌<◌, ◌≡◌, sym, ap, ◌∙◌, subst, arith, String, Bool, true, false, ◌&&◌, Option, none,
  some, List, [], ◌∷◌, leb, inl, inr, IsIn, some_inj, none≢some, Bool-cases,
}
use persistent_harness.Js.Values.{Json, number, entries_of, get}
use persistent_harness.Js.Texts.{utf16_length}
use persistent_harness.Conversation.{
  Birth, conversation_birth, sequence_of, last_sequence, births_of, reset, next, born, birth_from,
  next_from, birth_fields, safe_integer,
}

module _ (is_iso : String → Bool) where
  last_sequence-grows : (seq : ℕ) (vs : List (Option Json)) → seq ≤ last_sequence is_iso seq vs
  unfolding last_sequence
  last_sequence-grows seq [] = omega arith
  last_sequence-grows seq (v ∷ vs) =
      let a = last_sequence-grows seq vs in
      let b = last_sequence-grows (sequence_of is_iso (conversation_birth is_iso v)) vs in
      ground arith

  last_sequence-first :
      (seq : ℕ) (v : Option Json) (vs : List (Option Json))
      → sequence_of is_iso (conversation_birth is_iso v) ≤ last_sequence is_iso seq (v ∷ vs)
  unfolding last_sequence
  last_sequence-first seq v vs =
      let a = last_sequence-grows seq vs in
      let b = last_sequence-grows (sequence_of is_iso (conversation_birth is_iso v)) vs in
      ground arith

  last_sequence-upper :
      (vs : List (Option Json)) (seq : ℕ) (v : Option Json)
      → IsIn v vs
      → sequence_of is_iso (conversation_birth is_iso v) ≤ last_sequence is_iso seq vs
  unfolding last_sequence
  last_sequence-upper [] seq v i = absurd i
  last_sequence-upper (w ∷ vs) seq v (inl e) =
      subst
        (λ x. sequence_of is_iso (conversation_birth is_iso x) ≤ last_sequence is_iso seq (w ∷ vs))
        e (last_sequence-first seq w vs)
  last_sequence-upper (w ∷ vs) seq v (inr i) = last_sequence-upper vs _ v i

  born-sequence : (at : String) (n : ℕ) (b : Birth) → born is_iso at n ≡ some b → b.sequence ≡ n
  born-sequence at n b h = elim (Bool-cases (leb 1 n && leb (utf16_length at) 32 && is_iso at)) [
    | inl e ↦ ap (λ x. x.sequence) (sym (some_inj (rw e at h)))
    | inr e ↦ absurd (none≢some _ (rw e at h))
  ]

  birth_from-sequence :
      (n : Option ℕ) (at : Option String) (fits : Bool) (b : Birth)
      → birth_from is_iso n at fits ≡ some b
      → n ≡ some b.sequence
  birth_from-sequence none at fits b h = cc
  birth_from-sequence (some n) none fits b h = cc
  birth_from-sequence (some n) (some at) false b h = cc
  birth_from-sequence (some n) (some at) true b h = ap some (sym (born-sequence at n b h))

  safe_integer-number : (n k : ℕ) → safe_integer (some (number n 0)) ≡ some k → k ≡ n
  safe_integer-number n k h = ground arith

  -- The birth that is made has the sequence after the clock's.
  next-sequence :
      (seq : ℕ) (now : String) (b : Birth)
      → conversation_birth is_iso (some (birth_fields is_iso now (seq + 1))) ≡ some b
      → b.sequence ≡ seq + 1
  unfolding conversation_birth entries_of get
  next-sequence seq now b h =
      safe_integer-number (seq + 1) b.sequence
        (birth_from-sequence (safe_integer (some (number (seq + 1) 0))) (some now) true b h)

  next_from-some :
      (seq after : ℕ) (o : Option Birth) (b : Birth)
      → next_from is_iso seq o ≡ (some b, after)
      → (o ≡ some b) × (after ≡ b.sequence)
  next_from-some seq after none b h = absurd (none≢some _ (ap (λ x. x.0) h))
  next_from-some seq after (some d) b h =
      let e = ap (λ x. x.0) h in (e, sym (ap (λ x. x.1) h) ∙ ap (λ x. x.sequence) (some_inj e))

  -- A birth that the clock makes after it was set by the entries is later than that of every value of
  -- the entries, and the clock is at the new one from then on.
  pub next-later :
      (entries : List Json) (now : String) (b : Birth) (seq : ℕ) (v : Option Json) (c : Birth)
      → next is_iso (reset is_iso entries) now ≡ (some b, seq)
      → IsIn v (births_of entries)
      → conversation_birth is_iso v ≡ some c
      → (c.sequence < b.sequence) × (seq ≡ b.sequence)
  unfolding reset next
  next-later entries now b seq v c h i e =
      let upper = last_sequence-upper (births_of entries) 0 v i in
      let bound : c.sequence ≤ last_sequence is_iso 0 (births_of entries) =
        subst (λ o. sequence_of is_iso o ≤ last_sequence is_iso 0 (births_of entries)) e upper in
      let (made, at) = next_from-some _ seq _ b h in
      let n = next-sequence (last_sequence is_iso 0 (births_of entries)) now b made in
      (omega arith, at)
