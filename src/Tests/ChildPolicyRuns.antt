-- ===== src/Tests/ChildPolicyRuns.antt =====
-- The theorems on src/child-policy.mjs at a request with two models.
use persistent_harness.Prelude.{
  ℕ, ◌+◌, ◌≤◌, ◌≡◌, refl, String, true, false, Option, none, some, List, [], ◌∷◌, length, select,
  count, take, Outcome, ok,
}
use persistent_harness.Js.Values.{
  Json, Fields, boolean, number, text, array, object, nil, item, end, field, entries_of, get,
}
use persistent_harness.Cron.Text.{Text}
use persistent_harness.ChildPolicy.Models.{
  PolicyError, Level, Model, has_key, joined, normalize_models,
}
use persistent_harness.ChildPolicy.Find.{find_models, limit_of, matches, ranked_models}
use persistent_harness.ChildPolicy.Launch.{
  Parent, LaunchPolicy, Origin, resolve_child_launch_policy,
}
use persistent_harness.ChildPolicy.Granted.{
  IsOffered, IsWithinDepth, resolve_child_launch_policy-IsOffered,
}
use persistent_harness.ChildPolicy.Distinct.{normalize_models-distinct}
use persistent_harness.ChildPolicy.Order.{find_models_lem}

abbrev level_list : Json
level_list = array (item (text "off") (item (text "high") nil))

abbrev raw_model : String → Json
raw_model id = object (
    field "provider" (text "p") (
      field "id" (text id)
        (field "reasoning" (boolean true) (field "thinkingLevels" level_list end))))

abbrev raw_models : Json
raw_models = array (item (raw_model "a") (item (raw_model "b") nil))

abbrev model : String → Model
model id = record {
  provider = "p";
  id = id;
  name = id;
  reasoning = true;
  thinking_levels = Level.off ∷ Level.high ∷ [];
}

abbrev two_models : List Model
two_models = model "a" ∷ model "b" ∷ []

abbrev fields : Fields
fields = field "prompt" (text " go ") (
    field "availableModels" raw_models (
      field "parentModel" (raw_model "a") (
        field "model" (text "p/b")
          (field "parentThinkingLevel" (text "high") (field "skillCatalog" (array nil) end)))))

abbrev parent : Parent
parent = record { depth = 0; cwd = "/w"; repository_root = none }

abbrev show : Json → String
show v = ""

abbrev lower : Text → Text
lower cs = cs

abbrev policy : LaunchPolicy
policy = record {
  depth = 1;
  cwd = "/w";
  repository_root = none;
  prompt = b'g' ∷ b'o' ∷ [];
  fork_context = false;
  name = none;
  model = record {
    requested = some (text "p/b");
    resolved = record { provider = "p"; id = "b" };
    source = Origin.explicit;
  };
  thinking = record { requested = none; resolved = Level.high; source = Origin.inherited };
  skill_catalog = [];
  capabilities = [];
}

granted_run :
    resolve_child_launch_policy show
      (some (object fields))
      (some parent)
      none
      none
      (some (number 1 0))
    ≡ ok policy
unfolding resolve_child_launch_policy get entries_of persistent_harness.Cron.Text.trim
    persistent_harness.Js.Texts.units normalize_models persistent_harness.Js.Values.items_of
    persistent_harness.Prelude.first select
    persistent_harness.ChildPolicy.Models.normalize_skill_catalog
granted_run = refl

resolve_child_launch_policy-IsOffered_example :
    IsWithinDepth parent (some (number 1 0)) 1
    × ((available : List Model) × (normalize_models (get (entries_of fields) "availableModels")
          ≡ ok available)
        × IsOffered available policy)
resolve_child_launch_policy-IsOffered_example =
    resolve_child_launch_policy-IsOffered show parent none none (some (number 1 0)) fields policy
      granted_run

models_run : normalize_models (some raw_models) ≡ ok two_models
unfolding normalize_models persistent_harness.Js.Values.items_of get entries_of
    persistent_harness.Js.Texts.units persistent_harness.Prelude.first
models_run = refl

normalize_models-distinct_example : count (has_key (joined "\0" "p" "b")) two_models ≤ 1
normalize_models-distinct_example =
    normalize_models-distinct (some raw_models) two_models "p" "b" models_run

find_run :
    find_models lower (some raw_models) "p/" (some (number 1 0)) (some (raw_model "b"))
    ≡ ok (model "b" ∷ [])
unfolding find_models normalize_models persistent_harness.Js.Values.items_of get entries_of
    persistent_harness.Js.Texts.units persistent_harness.Prelude.first select
    persistent_harness.Cron.Text.trim persistent_harness.ChildPolicy.Find.includes
find_run = refl

find_models_lem_example :
    (normalized : List Model) × (normalize_models (some raw_models) ≡ ok normalized)
    × ((most : ℕ) × (limit_of (some (number 1 0)) ≡ some most)
        × (model "b" ∷ [] ≡ take most (ranked_models lower normalized "p/" (some (raw_model "b"))))
        × (1 ≤ most)
        × (most ≤ 100))
    × (count
          (has_key (joined "\0" "p" "a"))
          (ranked_models lower normalized "p/" (some (raw_model "b")))
        ≡ count (has_key (joined "\0" "p" "a")) (select (matches lower "p/") normalized))
find_models_lem_example =
    find_models_lem lower (some raw_models) "p/" (some (number 1 0)) (some (raw_model "b"))
      (model "b" ∷ []) (has_key (joined "\0" "p" "a")) find_run
