-- ===== src/ChildPolicy/Launch.antt =====
-- `resolveChildLaunchPolicy` of src/child-policy.mjs.
use persistent_harness.Prelude.{
  ℕ, ◌+◌, String, Bool, true, false, ◌&&◌, ◌||◌, Option, none, some, List, [], ◌∷◌, str_eq, leb,
  ◌==◌, is_some, length, every, map, select, first, ok, ◌>>=◌,
}
use persistent_harness.Js.Texts.{units, byte_length, is_alphanumeric}
use persistent_harness.Js.Values.{Json, Entry, get, present, whole, text_in, fields_in, boolean_in}
use persistent_harness.Cron.Text.{Text, trim}
use persistent_harness.ChildPolicy.Models.{
  invalid_request, parent_required, invalid_fork, invalid_depth, too_deep, invalid_prompt,
  invalid_name, parent_unavailable, unsupported_level, level_not_supported, Checked, guard, ◌>>◌,
  or_throw, Level, level_of, same_level, Model, ModelRef, Skill, require_model, normalize_models,
  resolve_exact_model, normalize_skill_catalog,
}

-- The session that starts the child.
pub record Parent : Type 0 where
  pub depth : ℕ
  pub cwd : String
  pub repository_root : Option String

pub data Origin : Type 0 where
  explicit configured inherited : Origin

pub record ChosenModel : Type 0 where
  pub requested : Option Json
  pub resolved : ModelRef
  pub source : Origin

pub record ChosenLevel : Type 0 where
  pub requested : Option Json
  pub resolved : Level
  pub source : Origin

pub record Capability : Type 0 where
  pub id : String
  pub version : String
  pub content_hash : String
  pub skill_path : String

abbrev as_capability : Skill → Capability
as_capability s = record {
  id = s.id;
  version = s.version;
  content_hash = s.content_hash;
  skill_path = s.skill_path;
}

pub record LaunchPolicy : Type 0 where
  pub depth : ℕ
  pub cwd : String
  pub repository_root : Option String
  pub prompt : Text
  pub fork_context : Bool
  pub name : Option Json
  pub model : ChosenModel
  pub thinking : ChosenLevel
  pub skill_catalog : List Skill
  pub capabilities : List Capability

-- `explicit ?? configured ?? parent`, where a value of null counts as none.
abbrev source_of : Option Json → Option Json → Origin
source_of (some e) c = explicit
source_of none (some c) = configured
source_of none none = inherited

abbrev candidate : Option Json → Option Json → Option Json → Option Json
candidate (some e) c p = some e
candidate none (some c) p = some c
candidate none none p = p

abbrev level_in : Option Json → Option Level
level_in v = elim (text_in v) [ none ↦ none | some s ↦ level_of s ]

pub resolve_thinking : Option Json → Option Json → Option Json → Checked ChosenLevel
resolve_thinking requested configured_level parent_level = do
  level ← or_throw (level_in (candidate requested configured_level parent_level)) unsupported_level
  ok (record {
    requested = requested;
    resolved = level;
    source = source_of requested configured_level;
  })

abbrev is_name_sign : ℕ → Bool
is_name_sign c = is_alphanumeric c || c == b'.' || c == b'_' || c == b'-'

-- `CHILD_NAME`.
is_child_name : Text → Bool
is_child_name [] = false
is_child_name (c ∷ cs) = is_alphanumeric c && leb (length cs) 63 && every is_name_sign cs

abbrev pub same_ref : ModelRef → Model → Bool
same_ref r m = str_eq m.provider r.provider && str_eq m.id r.id

abbrev pub as_model : Model → ModelRef
as_model m = record { provider = m.provider; id = m.id }

unfoldable pub resolve_model : Option Json → Option Json → Model → List Model → Checked Model
unfolding resolve_exact_model
resolve_model (some r) configured_model parent available = resolve_exact_model (some r) available
resolve_model none (some c) parent available = resolve_exact_model (some c) available
resolve_model none none parent available = ok parent

-- `forkContext`, false where it is not given.
abbrev pub fork_of : Option Json → Checked Bool
fork_of none = ok false
fork_of (some v) = or_throw (boolean_in (some v)) invalid_fork

abbrev pub depth_in : Option Json → Option ℕ
depth_in none = some 1
depth_in (some v) = whole v

-- The depth of the child. A limit that is not given is 1.
unfoldable pub check_depth : Parent → Option Json → Checked ℕ
check_depth parent max_depth = do
  most ← or_throw (depth_in max_depth) invalid_depth
  guard (leb most 4) invalid_depth
  guard (leb (parent.depth + 1) most) too_deep
  ok (parent.depth + 1)

-- The prompt without white space around it.
pub check_prompt : Option Json → Checked Text
check_prompt v = do
  prompt ← or_throw (text_in v) invalid_prompt
  guard (leb 1 (length (trim (units prompt))) && leb (byte_length prompt) 65536) invalid_prompt
  ok (trim (units prompt))

-- The policy, once everything is chosen.
abbrev pub granted :
    Parent
    → List Entry
    → Option Json
    → ℕ
    → Text
    → Bool
    → Model
    → ChosenLevel
    → List Skill
    → LaunchPolicy
granted parent fields configured_model depth prompt fork_context model thinking catalog = record {
  depth = depth;
  cwd = parent.cwd;
  repository_root = parent.repository_root;
  prompt = prompt;
  fork_context = fork_context;
  name = present (get fields "name");
  model = record {
    requested = present (get fields "model");
    resolved = as_model model;
    source = source_of (present (get fields "model")) configured_model;
  };
  thinking = thinking;
  skill_catalog = catalog;
  capabilities = map as_capability (select (λ s. s.python_backed) catalog);
}

-- `show` is `String`, which the test of a name applies to a value that is no text.
module _ (show : Json → String) where
  pub name_is_fit : Option Json → Bool
  unfolding is_child_name
  name_is_fit v = elim (present v) [
    | none ↦ true
    | some n ↦ elim (text_in (some n)) [
      | some s ↦ is_child_name (units s)
      | none ↦ is_child_name (units (show n))
    ]
  ]

  unfoldable pub resolve_child_launch_policy :
      Option Json → Option Parent → Option Json → Option Json → Option Json → Checked LaunchPolicy
  unfolding check_depth check_prompt name_is_fit resolve_model resolve_thinking
  resolve_child_launch_policy request parent configured_model configured_level max_depth = do
    fields ← or_throw (fields_in request) invalid_request
    from ← or_throw parent parent_required
    fork_context ← fork_of (get fields "forkContext")
    depth ← check_depth from max_depth
    prompt ← check_prompt (get fields "prompt")
    guard (name_is_fit (get fields "name")) invalid_name
    available ← normalize_models (get fields "availableModels")
    reference ← require_model (get fields "parentModel")
    inherited_model ← or_throw (first (same_ref reference) available) parent_unavailable
    model ←
        resolve_model (present (get fields "model")) (present configured_model) inherited_model
          available
    thinking ←
        resolve_thinking (present (get fields "thinkingLevel")) (present configured_level)
          (get fields "parentThinkingLevel")
    guard (is_some (first (same_level thinking.resolved) model.thinking_levels)) level_not_supported
    catalog ← normalize_skill_catalog (get fields "skillCatalog")
    ok (
        granted from fields (present configured_model) depth prompt fork_context model thinking
          catalog)
