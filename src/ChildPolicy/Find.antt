-- ===== src/ChildPolicy/Find.antt =====
-- `findModels` of src/child-policy.mjs.
use Prim.Native.String
use persistent_harness.Prelude.{
  ℕ, zero, suc, String, Bool, true, false, ◌&&◌, ◌||◌, Option, none, some, List, [], ◌∷◌, ◌++◌,
  str_eq, leb, ◌==◌, is_some, if◌then◌else◌, select, first, count, take, ok, ◌>>=◌,
}
use persistent_harness.Js.Texts.{units}
use persistent_harness.Js.Values.{Json, get, present, whole, list_in, fields_in, text_in}
use persistent_harness.Cron.Text.{Text, trim}
use persistent_harness.ChildPolicy.Models.{
  invalid_limit, Checked, guard, ◌>>◌, or_throw, Model, ModelRef, joined, has_model_id,
  normalize_models,
}

abbrev starts_with : Text → Text → Bool
starts_with [] cs = true
starts_with (n ∷ ns) [] = false
starts_with (n ∷ ns) (c ∷ cs) = n == c && starts_with ns cs

-- `text.includes(needle)`.
unfoldable pub includes : Text → Text → Bool
includes needle [] = starts_with needle []
includes needle (c ∷ cs) = starts_with needle (c ∷ cs) || includes needle cs

-- The values of `preferred`, one or a list of them.
abbrev values_of : Option Json → List Json
values_of v = elim (list_in v) [
  | some vs ↦ vs
  | none ↦ elim (present v) [ none ↦ [] | some w ↦ w ∷ [] ]
]

abbrev same_entry : String → ModelRef → Bool
same_entry key r = str_eq (joined "\0" r.provider r.id) key

-- A value with a provider and an id, if it is none of those seen.
abbrev entry_of : List ModelRef → Json → Option ModelRef
entry_of seen v = elim (fields_in (some v)) [
  | none ↦ none
  | some fields ↦ elim (text_in (get fields "provider")) [
    | none ↦ none
    | some p ↦ elim (text_in (get fields "id")) [
      | none ↦ none
      | some i ↦
          if is_some (first (same_entry (joined "\0" p i)) seen)
          then none
          else some (record { provider = p; id = i })
    ]
  ]
]

unfoldable preferred_entries : List ModelRef → List Json → List ModelRef
preferred_entries seen [] = []
preferred_entries seen (v ∷ vs) = elim (entry_of seen v) [
  | none ↦ preferred_entries seen vs
  | some r ↦ r ∷ preferred_entries (r ∷ seen) vs
]

-- `findIndex`.
unfoldable index_of : (Model → Bool) → List Model → Option ℕ
index_of p [] = none
index_of p (m ∷ ms) =
    let rest = index_of p ms in
    if p m then some 0 else elim rest [ none ↦ none | some n ↦ some (suc n) ]

abbrev is_exactly : ModelRef → Model → Bool
is_exactly r m = str_eq m.provider r.provider && str_eq m.id r.id

pub preferred_index : List Model → ModelRef → Option ℕ
unfolding index_of
preferred_index ms r = elim (index_of (is_exactly r) ms) [
  | some n ↦ some n
  | none ↦ if count (has_model_id r.id) ms == 1 then index_of (has_model_id r.id) ms else none
]

-- The model at a place, and the list without it: `splice(index, 1)`.
unfoldable pub splice : ℕ → List Model → Option (Model × List Model)
splice n [] = none
splice zero (m ∷ ms) = some (m, ms)
splice (suc n) (m ∷ ms) = elim (splice n ms) [ none ↦ none | some (k, rest) ↦ some (k, m ∷ rest) ]

-- The preferred model, if there is one and it is not the first, goes in front.
unfoldable pub promote : List Model → ModelRef → List Model
unfolding preferred_index splice
promote ms r = elim (preferred_index ms r) [
  | none ↦ ms
  | some n ↦ elim (splice n ms) [ none ↦ ms | some (m, rest) ↦ m ∷ rest ]
]

unfoldable pub promote_all : List Model → List ModelRef → List Model
unfolding promote
promote_all ms [] = ms
promote_all ms (r ∷ rs) = promote_all (promote ms r) rs

abbrev reversed : List ModelRef → List ModelRef
reversed [] = []
reversed (r ∷ rs) = reversed rs ++ r ∷ []

-- The preferred models, the last first, as they are put in front one after the other.
pub promotion_order : Option Json → List ModelRef
unfolding preferred_entries
promotion_order preferred = reversed (preferred_entries [] (values_of preferred))

abbrev pub limit_of : Option Json → Option ℕ
limit_of none = some 50
limit_of (some v) = whole v

-- `query` is a text already, and `lower` is `toLowerCase`.
module _ (lower : Text → Text) where
  abbrev pub matches : String → Model → Bool
  matches query m = elim (lower (trim (units query))) [
    | [] ↦ true
    | n ∷ ns ↦ includes (n ∷ ns) (
        lower (
          units (
            Prim.Native.String.◌++◌ (joined "/" m.provider m.id)
              (Prim.Native.String.◌++◌ " " m.name))))
  ]

  -- The models that match, the preferred ones first.
  unfoldable pub ranked_models : List Model → String → Option Json → List Model
  unfolding promote_all promotion_order
  ranked_models models query preferred =
      promote_all (select (matches query) models) (promotion_order preferred)

  unfoldable pub find_models :
      Option Json → String → Option Json → Option Json → Checked (List Model)
  unfolding ranked_models
  find_models models query limit preferred = do
    most ← or_throw (limit_of limit) invalid_limit
    guard (leb 1 most && leb most 100) invalid_limit
    normalized ← normalize_models models
    ok (take most (ranked_models normalized query preferred))
