-- ===== src/Protocol/Cursors.antt =====
-- The cursors that `subscribeRootOutput` of src/protocol.mjs lets through.
use persistent_harness.Prelude.{
  ℕ, ◌≤◌, ◌≡◌, sym, subst, String, Bool, true, false, Option, none, some, List, [], ◌∷◌, ok,
  >>=-elim, ok_inj, inl, inr,
}
use persistent_harness.Js.Values.{Json, text, Entry, get}
use persistent_harness.Protocol.Reading.{
  check, exact_record, string, integer, optionally, safe_max, bool, or_else, whole_in,
}
use persistent_harness.Protocol.Checked.{
  IsFit, require-inv, integer-inv, string-inv, optionally-inv,
}
use persistent_harness.Protocol.Sessions.{
  Cursor, invalid, whole_output, after, cursor_of, fits, subscribe_root_output,
}

-- What the parameters say of where a client goes on.
abbrev pub IsCursor : List Entry → Cursor → Type 0
IsCursor value invalid = (get value "generation" ≡ none) × (get value "afterSeq" ≡ none)
IsCursor value whole_output = (get value "generation" ≡ none) × (get value "afterSeq" ≡ none)
IsCursor value (after g n) =
    (get value "generation" ≡ some (text g))
    × IsFit 128 g
    × (fits (some g) ≡ true)
    × (whole_in (get value "afterSeq") ≡ some n)
    × (n ≤ safe_max)

-- The two parts that were read.
abbrev IsGeneration : List Entry → Option String → Type 0
IsGeneration value none = get value "generation" ≡ none
IsGeneration value (some g) =
    (get value "generation" ≡ some (text g)) × IsFit 128 g × (fits (some g) ≡ true)

abbrev IsSequence : List Entry → Option ℕ → Type 0
IsSequence value none = get value "afterSeq" ≡ none
IsSequence value (some n) = (whole_in (get value "afterSeq") ≡ some n) × (n ≤ safe_max)

optionally-IsGeneration :
    (value : List Entry) (g : Option String)
    → optionally (get value "generation") (λ v. string v 128) ≡ ok g
    → fits g ≡ true
    → IsGeneration value g
optionally-IsGeneration value g h f =
    elim (optionally-inv (get value "generation") (λ v. string v 128) g h) [
      | inl (e, e') ↦ subst (IsGeneration value) (sym e') e
      | inr (s, e, e') ↦
          let (at, fit) = string-inv (get value "generation") 128 s e in
          subst (IsGeneration value) (sym e') (at, fit, subst (λ x. fits x ≡ true) e' f)
    ]

optionally-IsSequence :
    (value : List Entry) (n : Option ℕ)
    → optionally (get value "afterSeq") (λ v. integer v 0 safe_max) ≡ ok n
    → IsSequence value n
optionally-IsSequence value n h =
    elim (optionally-inv (get value "afterSeq") (λ v. integer v 0 safe_max) n h) [
      | inl (e, e') ↦ subst (IsSequence value) (sym e') e
      | inr (m, e, e') ↦
          let (at, _, fit) = integer-inv (get value "afterSeq") 0 safe_max m e in
          subst (IsSequence value) (sym e') (at, fit)
    ]

cursor_of-IsCursor :
    (value : List Entry) (b : Bool) (g : Option String) (n : Option ℕ) (c : Cursor)
    → cursor_of b g n ≡ ok c
    → IsGeneration value g
    → IsSequence value n
    → IsCursor value c
cursor_of-IsCursor value true none none c h a b = subst (IsCursor value) (ok_inj h) (a, b)
cursor_of-IsCursor value true none (some n) c h a b = cc
cursor_of-IsCursor value true (some g) n c h a b = cc
cursor_of-IsCursor value false none none c h a b = subst (IsCursor value) (ok_inj h) (a, b)
cursor_of-IsCursor value false (some g) (some n) c h a b =
    subst (IsCursor value) (ok_inj h) (a.0, a.1, a.2, b.0, b.1)
cursor_of-IsCursor value false none (some n) c h a b = cc
cursor_of-IsCursor value false (some g) none c h a b = cc

-- A subscription that is accepted goes on after a place that is given whole, a generation of the
-- right form with a number that is exact, or names neither of the two.
pub subscribe_root_output-IsCursor :
    (params : Option Json) (c : Cursor)
    → subscribe_root_output params ≡ ok c
    → (value : List Entry) × (exact_record params ("generation" ∷ "afterSeq" ∷ "invalidCursor" ∷ [])
        ≡ ok value)
      × IsCursor value c
unfolding subscribe_root_output
subscribe_root_output-IsCursor params c h =
    >>=-elim (exact_record params ("generation" ∷ "afterSeq" ∷ "invalidCursor" ∷ [])) _ c h
      λ value e h1.
        >>=-elim (optionally (get value "generation") (λ v. string v 128)) _ c h1 λ g eg h2.
          >>=-elim (optionally (get value "afterSeq") (λ v. integer v 0 safe_max)) _ c h2 λ n en h3.
            >>=-elim (optionally (get value "invalidCursor") bool) _ c h3 λ b _ h4.
              >>=-elim (check (fits g)) _ c h4 λ u f h5. (
                value,
                e,
                cursor_of-IsCursor value (or_else b false) g n c h5
                    (optionally-IsGeneration value g eg (require-inv _ _ u f))
                    (optionally-IsSequence value n en),
              )
