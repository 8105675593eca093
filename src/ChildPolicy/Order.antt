-- ===== src/ChildPolicy/Order.antt =====
-- What `findModels` of src/child-policy.mjs returns.
use persistent_harness.Prelude.{
  ℕ, zero, suc, ◌≤◌, ◌≡◌, refl, String, Bool, Option-cases, inl, inr, Option, some, List, [], ◌∷◌,
  arith, none≢some, some_inj, leb, ◌&&◌, length, length-take-le, select, count, take, ok, >>=-elim,
  ok_inj, subst, sym, ◌∙◌,
}
use persistent_harness.Js.Values.{Json}
use persistent_harness.Cron.Text.{Text}
use persistent_harness.ChildPolicy.Models.{
  PolicyError, Model, ModelRef, or_throw, or_throw-inv, guard, normalize_models,
}
use persistent_harness.ChildPolicy.Find.{
  splice, preferred_index, promote, promote_all, matches, ranked_models, promotion_order, limit_of,
  find_models,
}

-- Taking one model out and putting it in front loses none and doubles none.
count-splice :
    (p : Model → Bool) (n : ℕ) (ms : List Model) (m : Model) (rest : List Model)
    → splice n ms ≡ some (m, rest)
    → count p (m ∷ rest) ≡ count p ms
unfolding splice count
count-splice p n [] m rest h = cc
count-splice p zero (k ∷ ms) m rest h = ground arith
count-splice p (suc n) (k ∷ ms) m rest h = elim (Option-cases (splice n ms)) [
  | inl e ↦ absurd (none≢some _ (rw e at h))
  | inr ((l, others), e) ↦
      let ih : count p (l ∷ others) ≡ count p ms = count-splice p n ms l others e in
      let same = some_inj (rw e at h) in
      subst (λ x. count p (x.0 ∷ x.1) ≡ count p (k ∷ ms)) same (omega arith)
]

count-promote :
    (p : Model → Bool) (ms : List Model) (r : ModelRef) → count p (promote ms r) ≡ count p ms
unfolding promote
count-promote p ms r = elim (Option-cases (preferred_index ms r)) [
  | inl e ↦ rw (e, promote) refl
  | inr (n, e) ↦ elim (Option-cases (splice n ms)) [
    | inl f ↦ rw (e, promote) (rw f refl)
    | inr ((m, rest), f) ↦ rw (e, promote) (rw f (count-splice p n ms m rest f))
  ]
]

count-promote_all :
    (p : Model → Bool) (ms : List Model) (rs : List ModelRef)
    → count p (promote_all ms rs) ≡ count p ms
unfolding promote_all
count-promote_all p ms [] = refl
count-promote_all p ms (r ∷ rs) = count-promote_all p (promote ms r) rs ∙ count-promote p ms r

module _ (lower : Text → Text) where
  -- The result is the front of a list that holds the matching models, each as often as it was there,
  -- and nothing else; it has no more models than the limit, and 100 at most.
  pub find_models_lem :
      (models : Option Json) (query : String) (limit preferred : Option Json) (found : List Model)
      (p : Model → Bool)
      → find_models lower models query limit preferred ≡ ok found
      → (normalized : List Model) × (normalize_models models ≡ ok normalized)
        × ((most : ℕ) × (limit_of limit ≡ some most)
            × (found ≡ take most (ranked_models lower normalized query preferred))
            × (length found ≤ most)
            × (most ≤ 100))
        × (count p (ranked_models lower normalized query preferred)
            ≡ count p (select (matches lower query) normalized))
  unfolding find_models
  find_models_lem models query limit preferred found p h =
      >>=-elim (or_throw (limit_of limit) PolicyError.invalid_limit) _ found h λ most e h1.
        >>=-elim (guard (leb 1 most && leb most 100) PolicyError.invalid_limit) _ found h1 λ _ g h2.
          >>=-elim (normalize_models models) _ found h2 λ normalized n h3. (
            normalized,
            n,
            (
              most,
              or_throw-inv (limit_of limit) _ most e,
              sym (ok_inj h3),
              subst (λ f. length f ≤ most) (ok_inj h3) (length-take-le most _),
              ground arith,
            ),
            unfold ranked_models in
                count-promote_all p (select (matches lower query) normalized)
                  (promotion_order preferred),
          )
