-- ===== src/ChildPolicy/Distinct.antt =====
-- The models of a request are distinct (src/child-policy.mjs).
use persistent_harness.Prelude.{
  ◌+◌, ◌≤◌, ◌≡◌, String, true, Bool-cases, inl, inr, Option, none, some, List, [], ◌∷◌, not, ◌&&◌,
  ◌||◌, refl, eq_iff, arith, leb, length, is_some, first, count, count-none, ok, >>=-elim, ok_inj,
  subst,
}
use persistent_harness.Js.Values.{Json, list_in, fields_in, get}
use persistent_harness.ChildPolicy.Models.{
  PolicyError, Model, has_key, joined, or_throw, guard, guard-inv, is_true, only_off, require_model,
  levels_of, normalize_model, normalize_each, normalize_models,
}

-- A model that is accepted has a key that no model before it has.
normalize_model-fresh :
    (seen : List Model) (v : Json) (m : Model)
    → normalize_model seen v ≡ ok m
    → first (has_key (joined "\0" m.provider m.id)) seen ≡ none
unfolding normalize_model
normalize_model-fresh seen v m h = >>=-elim (require_model (some v)) _ m h λ r _ h1.
    >>=-elim (or_throw (fields_in (some v)) PolicyError.model_required) _ m h1 λ fields _ h2.
      >>=-elim
        (guard (not (is_some (first (has_key (joined "\0" r.provider r.id)) seen)))
          PolicyError.duplicate_model)
        _ m h2
        λ _ g h3.
          >>=-elim (or_throw (list_in (get fields "thinkingLevels")) PolicyError.no_levels) _ m h3
            λ raw _ h4. >>=-elim (guard (leb 1 (length raw)) PolicyError.no_levels) _ m h4 λ _ _ h5.
              >>=-elim (or_throw (levels_of raw) PolicyError.invalid_levels) _ m h5 λ ls _ h6.
                >>=-elim
                  (guard (is_true (get fields "reasoning") || only_off ls)
                    PolicyError.levels_without_reasoning)
                  _ m h6
                  λ _ _ h7.
                    subst (λ k. first (has_key (joined "\0" k.provider k.id)) seen ≡ none)
                      (ok_inj h7) (not_some _ (guard-inv _ _ _ g))
  where
    not_some : (o : Option Model) → not (is_some o) ≡ true → o ≡ none
    not_some none e = refl
    not_some (some k) e = cc

count-seen :
    (key : String) (m : Model) (seen : List Model)
    → first (has_key (joined "\0" m.provider m.id)) seen ≡ none
    → count (has_key key) seen ≤ 1
    → count (has_key key) (m ∷ seen) ≤ 1
unfolding count
count-seen key m seen fresh u = elim (Bool-cases (has_key key m)) [
  | inr e ↦ rw e (omega arith)
  | inl e ↦
      let none_before : count (has_key key) seen ≡ 0 =
        count-none (has_key key) seen
          (subst (λ k. first (has_key k) seen ≡ none) ((eq_iff _ _).0 e) fresh) in
      rw e (omega arith)
]

-- Behind those seen, no key comes twice.
normalize_each-distinct :
    (key : String) (seen : List Model) (vs : List Json) (ms : List Model)
    → normalize_each seen vs ≡ ok ms
    → count (has_key key) seen ≤ 1
    → count (has_key key) ms + count (has_key key) seen ≤ 1
unfolding normalize_each
normalize_each-distinct key seen [] ms h u =
    subst (λ l. count (has_key key) l + count (has_key key) seen ≤ 1) (ok_inj h)
      (unfold count in omega arith)
normalize_each-distinct key seen (v ∷ vs) ms h u =
    >>=-elim (normalize_model seen v) _ ms h λ m e h1.
      >>=-elim (normalize_each (m ∷ seen) vs) _ ms h1 λ rest e' h2.
        let ih =
          normalize_each-distinct key (m ∷ seen) vs rest e'
            (count-seen key m seen (normalize_model-fresh seen v m e) u) in
        subst (λ l. count (has_key key) l + count (has_key key) seen ≤ 1) (ok_inj h2)
          (moved key m rest seen ih)
  where
    moved :
        (key : String) (m : Model) (rest seen : List Model)
        → count (has_key key) rest + count (has_key key) (m ∷ seen) ≤ 1
        → count (has_key key) (m ∷ rest) + count (has_key key) seen ≤ 1
    moved key m rest seen h = unfold count in omega arith

-- In a list of models that is accepted, a provider and an id name one model at most.
pub normalize_models-distinct :
    (models : Option Json) (ms : List Model) (provider id : String)
    → normalize_models models ≡ ok ms
    → count (has_key (joined "\0" provider id)) ms ≤ 1
unfolding normalize_models
normalize_models-distinct models ms provider id h =
    >>=-elim (or_throw (list_in models) PolicyError.invalid_models) _ ms h λ vs _ h1.
      >>=-elim (guard (leb 1 (length vs) && leb (length vs) 512) PolicyError.invalid_models) _ ms h1
        λ _ _ h2.
          let d =
            normalize_each-distinct (joined "\0" provider id) [] vs ms h2
              (unfold count in omega arith) in
          omega arith
