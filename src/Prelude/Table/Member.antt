-- ===== src/Prelude/Table/Member.antt =====
-- Which values a list holds.
use mathlib.Core.Path.{◌≡◌}
use mathlib.Core.List.{List, [], ◌∷◌}
use mathlib.Core.Logic.{◌⊎◌, inl, inr}
use mathlib.Core.Bool.{Bool}
use mathlib.Core.Option.{some}
use persistent_harness.Prelude.Tests.{Bool-cases}
use persistent_harness.Prelude.Table.Rows.{first, select, some_inj}

module _ {A : Type 0} where
  abbrev pub IsIn : A → List A → Type 0
  IsIn a [] = ⊥
  IsIn a (x ∷ xs) = (x ≡ a) ⊎ IsIn a xs

  -- What is found stands in the list.
  pub first-IsIn : (p : A → Bool) (xs : List A) (a : A) → first p xs ≡ some a → IsIn a xs
  unfolding first
  first-IsIn p [] a h = cc
  first-IsIn p (x ∷ xs) a h = elim (Bool-cases (p x)) [
    | inl e ↦ inl (some_inj (rw e at h))
    | inr e ↦ inr (first-IsIn p xs a (rw e at h))
  ]

  pub select-IsIn : (p : A → Bool) (xs : List A) (a : A) → IsIn a (select p xs) → IsIn a xs
  unfolding select
  select-IsIn p (x ∷ xs) a h = elim (Bool-cases (p x)) [
    | inl e ↦ under (rw e at h) (λ m. select-IsIn p xs a m)
    | inr e ↦ inr (select-IsIn p xs a (rw e at h))
  ]
    where
      under :
          (x ≡ a) ⊎ IsIn a (select p xs) → (IsIn a (select p xs) → IsIn a xs) → (x ≡ a) ⊎ IsIn a xs
      under (inl e) k = inl e
      under (inr m) k = inr (k m)
  select-IsIn p [] a h = h
