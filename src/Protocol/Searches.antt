-- ===== src/Protocol/Searches.antt =====
-- The searches of a history and the endpoints of a claim that src/protocol.mjs lets through.
use persistent_harness.Prelude.{
  suc, ◌≤◌, ◌≡◌, refl, ap, subst, arith, String, false, Option, some, List, [], ◌∷◌, length, ok,
  >>=-elim, ok_inj, inl, inr, Bool-cases,
}
use persistent_harness.Js.Values.{Json, get}
use persistent_harness.Protocol.Reading.{Reading, exact_record, read_array, each, member}
use persistent_harness.Protocol.Checked.{read_array-short}
use persistent_harness.Protocol.Notices.{notification_identity, unique, endpoints_in}

-- No text is there twice, and none of those before.
abbrev pub IsApart : List String → List String → Type 0
IsApart seen [] = Unit
IsApart seen (s ∷ ss) = (member seen s ≡ false) × IsApart (s ∷ seen) ss

unique-IsApart : (seen ids : List String) → IsApart seen (unique seen ids)
unfolding unique
unique-IsApart seen [] = tt
unique-IsApart seen (s ∷ ss) = elim (Bool-cases (member seen s)) [
  | inl e ↦ rw (e, unique) (unique-IsApart seen ss)
  | inr e ↦ rw (e, unique) (e, unique-IsApart (s ∷ seen) ss)
]

length-unique : (seen ids : List String) → length (unique seen ids) ≤ length ids
unfolding unique
length-unique seen [] = omega arith
length-unique seen (s ∷ ss) =
    let a = length-unique seen ss in let b = length-unique (s ∷ seen) ss in ground arith

length-each :
    {A : Type 0} (read : Option Json → Reading A) (vs : List Json) (out : List A)
    → each read vs ≡ ok out
    → length out ≡ length vs
unfolding each
length-each read [] out h = subst (λ x. length x ≡ 0) (ok_inj h) refl
length-each read (v ∷ vs) out h = >>=-elim (read (some v)) _ out h λ a _ h1.
    >>=-elim (each read vs) _ out h1 λ rest e h2.
      subst (λ x. length x ≡ length (v ∷ vs)) (ok_inj h2) (ap suc (length-each read vs rest e))

-- The endpoints of a claim that is accepted are eight at most, and none is there twice.
pub endpoints_in-IsApart :
    (params : Option Json) (ids : List String)
    → endpoints_in params ≡ ok ids
    → IsApart [] ids × (length ids ≤ 8)
unfolding endpoints_in
endpoints_in-IsApart params ids h =
    >>=-elim (exact_record params ("endpointIds" ∷ [])) _ ids h λ value _ h1.
      >>=-elim (read_array (get value "endpointIds") 8) _ ids h1 λ raw r h2.
        >>=-elim (each notification_identity raw) _ ids h2 λ all e h3.
          let short = read_array-short (get value "endpointIds") 8 raw r in
          let same = length-each notification_identity raw all e in
          let less = length-unique [] all in
          subst (λ x. IsApart [] x × (length x ≤ 8)) (ok_inj h3)
            (unique-IsApart [] all, omega arith)
