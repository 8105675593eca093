-- ===== src/ChildPolicy/Models.antt =====
-- The models and skills of a request, checked (src/child-policy.mjs).
use Prim.Native.String
use persistent_harness.Prelude.{
  ℕ, String, Bool, true, false, not, ◌&&◌, ◌||◌, Option, none, some, List, [], ◌∷◌, str_eq, leb,
  ◌==◌, is_some, if◌then◌else◌, length, every, select, first, ◌≡◌, refl, Outcome, ok, err, ◌>>=◌,
}
use persistent_harness.Js.Texts.{utf16_length}
use persistent_harness.Js.Values.{Json, get, text_in, fields_in, list_in, boolean_in}

pub data PolicyError : Type 0 where
  model_required invalid_provider invalid_id : PolicyError
  invalid_reference ambiguous_reference unresolved_reference : PolicyError
  invalid_models duplicate_model no_levels invalid_levels levels_without_reasoning : PolicyError
  invalid_skills invalid_skill duplicate_skill : PolicyError
  invalid_request parent_required invalid_fork invalid_depth too_deep : PolicyError
  invalid_prompt invalid_name parent_unavailable unsupported_level level_not_supported : PolicyError
  invalid_limit : PolicyError

abbrev pub Checked : Type 0 → Type 0
Checked = Outcome PolicyError

abbrev pub guard : Bool → PolicyError → Checked (Unit {0})
guard true e = ok tt
guard false e = err e

infixl 5 ◌>>◌
abbrev pub ◌>>◌ : {A : Type 0} → Checked (Unit {0}) → Checked A → Checked A
m >> k = m >>= λ _. k

abbrev pub or_throw : {A : Type 0} → Option A → PolicyError → Checked A
or_throw none e = err e
or_throw (some a) e = ok a

pub or_throw-inv :
    {A : Type 0} (o : Option A) (e : PolicyError) (a : A) → or_throw o e ≡ ok a → o ≡ some a
or_throw-inv none e a h = cc
or_throw-inv (some b) e a h = cc

pub guard-inv : (b : Bool) (e : PolicyError) (u : Unit {0}) → guard b e ≡ ok u → b ≡ true
guard-inv true e u h = refl
guard-inv false e u h = cc

-- `THINKING_LEVELS`.
pub data Level : Type 0 where
  off minimal low medium high xhigh max : Level

abbrev pub level_of : String → Option Level
level_of s =
    if str_eq s "off"
    then some off
    else if str_eq s "minimal"
    then some minimal
    else if str_eq s "low"
    then some low
    else if str_eq s "medium"
    then some medium
    else if str_eq s "high"
    then some high
    else if str_eq s "xhigh"
    then some xhigh
    else if str_eq s "max"
    then some max
    else none

abbrev rank : Level → ℕ
rank off = 0
rank minimal = 1
rank low = 2
rank medium = 3
rank high = 4
rank xhigh = 5
rank max = 6

abbrev pub same_level : Level → Level → Bool
same_level a b = rank a == rank b

-- A text that is not empty and has at most so many units.
abbrev pub bounded : ℕ → Option Json → PolicyError → Checked String
bounded most v e = do
  s ← or_throw (text_in v) e
  guard (leb 1 (utf16_length s) && leb (utf16_length s) most) e
  ok s

pub record ModelRef : Type 0 where
  pub provider : String
  pub id : String

pub require_model : Option Json → Checked ModelRef
require_model v = do
  model ← or_throw (fields_in v) model_required
  provider ← bounded 128 (get model "provider") invalid_provider
  id ← bounded 256 (get model "id") invalid_id
  ok (record { provider = provider; id = id })

pub record Model : Type 0 where
  pub provider : String
  pub id : String
  pub name : String
  pub reasoning : Bool
  pub thinking_levels : List Level

-- `${provider}/${id}`, and the same with another sign between.
abbrev pub joined : String → String → String → String
joined sign provider id = Prim.Native.String.◌++◌ provider (Prim.Native.String.◌++◌ sign id)

abbrev pub has_key : String → Model → Bool
has_key key m = str_eq (joined "\0" m.provider m.id) key

-- The levels of a list of texts, each of which is one and none twice.
pub levels_of : List Json → Option (List Level)
levels_of [] = some []
levels_of (v ∷ vs) = elim (levels_of vs) [
  | none ↦ none
  | some ls ↦ elim (text_in (some v)) [
    | none ↦ none
    | some s ↦ elim (level_of s) [
      | none ↦ none
      | some l ↦ if is_some (first (same_level l) ls) then none else some (l ∷ ls)
    ]
  ]
]

abbrev pub only_off : List Level → Bool
only_off ls = length ls == 1 && every (same_level off) ls

-- `typeof model.name === "string" && model.name.length <= 256 ? model.name : model.id`.
abbrev name_or : Option Json → String → String
name_or v id = elim (text_in v) [ none ↦ id | some s ↦ if leb (utf16_length s) 256 then s else id ]

abbrev pub is_true : Option Json → Bool
is_true v = elim (boolean_in v) [ none ↦ false | some b ↦ b ]

-- One element of `normalizeModels`, after those that were seen.
unfoldable pub normalize_model : List Model → Json → Checked Model
unfolding require_model levels_of
normalize_model seen v = do
  resolved ← require_model (some v)
  model ← or_throw (fields_in (some v)) model_required
  guard (not (is_some (first (has_key (joined "\0" resolved.provider resolved.id)) seen)))
      duplicate_model
  raw ← or_throw (list_in (get model "thinkingLevels")) no_levels
  guard (leb 1 (length raw)) no_levels
  levels ← or_throw (levels_of raw) invalid_levels
  guard (is_true (get model "reasoning") || only_off levels) levels_without_reasoning
  ok (record {
    provider = resolved.provider;
    id = resolved.id;
    name = name_or (get model "name") resolved.id;
    reasoning = is_true (get model "reasoning");
    thinking_levels = levels;
  })

unfoldable pub normalize_each : List Model → List Json → Checked (List Model)
unfolding normalize_model
normalize_each seen [] = ok []
normalize_each seen (v ∷ vs) = do
  m ← normalize_model seen v
  ms ← normalize_each (m ∷ seen) vs
  ok (m ∷ ms)

unfoldable pub normalize_models : Option Json → Checked (List Model)
unfolding normalize_each
normalize_models v = do
  models ← or_throw (list_in v) invalid_models
  guard (leb 1 (length models) && leb (length models) 512) invalid_models
  normalize_each [] models

abbrev pub has_name : String → Model → Bool
has_name reference m = str_eq (joined "/" m.provider m.id) reference

abbrev pub has_model_id : String → Model → Bool
has_model_id reference m = str_eq m.id reference

-- The one model of a list, if it has just one.
abbrev pub sole : List Model → Option Model
sole [] = none
sole (m ∷ []) = some m
sole (m ∷ n ∷ ms) = none

unfoldable pub resolve_exact_model : Option Json → List Model → Checked Model
resolve_exact_model v available = do
  reference ← bounded 384 v invalid_reference
  elim (sole (select (has_name reference) available)) [
    | some m ↦ ok m
    | none ↦ elim (select (has_model_id reference) available) [
      | [] ↦ err unresolved_reference
      | m ∷ ms ↦ elim ms [ [] ↦ ok m | n ∷ ns ↦ err ambiguous_reference ]
    ]
  ]

pub record Skill : Type 0 where
  pub id : String
  pub version : String
  pub content_hash : String
  pub skill_path : String
  pub python_backed : Bool

abbrev has_skill_id : String → Skill → Bool
has_skill_id id s = str_eq s.id id

unfoldable normalize_skill : List Skill → Json → Checked Skill
normalize_skill seen v = do
  skill ← or_throw (fields_in (some v)) invalid_skill
  id ← bounded 4096 (get skill "id") invalid_skill
  version ← bounded 4096 (get skill "version") invalid_skill
  content_hash ← bounded 4096 (get skill "contentHash") invalid_skill
  skill_path ← bounded 4096 (get skill "skillPath") invalid_skill
  guard (not (is_some (first (has_skill_id id) seen))) duplicate_skill
  python_backed ← or_throw (boolean_in (get skill "pythonBacked")) invalid_skill
  ok (record {
    id = id;
    version = version;
    content_hash = content_hash;
    skill_path = skill_path;
    python_backed = python_backed;
  })

unfoldable normalize_skills : List Skill → List Json → Checked (List Skill)
unfolding normalize_skill
normalize_skills seen [] = ok []
normalize_skills seen (v ∷ vs) = do
  s ← normalize_skill seen v
  ss ← normalize_skills (s ∷ seen) vs
  ok (s ∷ ss)

unfoldable pub normalize_skill_catalog : Option Json → Checked (List Skill)
unfolding normalize_skills
normalize_skill_catalog v = do
  skills ← or_throw (list_in v) invalid_skills
  guard (leb (length skills) 128) invalid_skills
  normalize_skills [] skills
