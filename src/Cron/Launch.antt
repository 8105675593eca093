-- ===== src/Cron/Launch.antt =====
-- src/cron-launch.mjs: the launch policy of a job, which is an explicit pin or the live settings.
use Prim.Native.String.{◌++◌}
use persistent_harness.Prelude.{
  String, ◌≡◌, Bool, true, false, not, ◌&&◌, ◌||◌, Option, none, some, arith, str_eq, if◌then◌else◌,
}

-- What a request or a stored JSON value holds. `none` stands for a field that is missing or is not
-- a string; `provider` and `id` are the fields of `resolved`.
pub record RawModel : Type 0 where
  pub source : Option String
  pub requested : Option String
  pub provider : Option String
  pub id : Option String

pub record RawThinking : Type 0 where
  pub source : Option String
  pub requested : Option String
  pub resolved : Option String

pub record RawLaunch : Type 0 where
  pub model : RawModel
  pub thinking : RawThinking

-- `SETTINGS_MODEL`, or an explicit pin: requested, provider, id.
pub data ModelPolicy : Type 0 where
  settings_model : ModelPolicy
  explicit_model : String → String → String → ModelPolicy

-- `SETTINGS_THINKING`, or an explicit pin: requested, resolved.
pub data ThinkingPolicy : Type 0 where
  settings_thinking : ThinkingPolicy
  explicit_thinking : String → String → ThinkingPolicy

-- `capabilityIds` is always empty.
pub record Launch : Type 0 where
  pub model : ModelPolicy
  pub thinking : ThinkingPolicy

-- A text that JavaScript takes for true.
abbrev truthy : Option String → Option String
truthy none = none
truthy (some s) = if str_eq s "" then none else some s

abbrev is_explicit : Option String → Bool
is_explicit none = false
is_explicit (some s) = str_eq s "explicit"

abbrev or_else : Option String → String → String
or_else none d = d
or_else (some s) d = s

-- `isPinnedModel` with the value that is kept; `truthy` is the two tests of each text.
unfoldable pub normalize_model : RawModel → ModelPolicy
normalize_model m =
    if is_explicit m.source then pinned (truthy m.provider) (truthy m.id) else settings_model
  where
    pinned : Option String → Option String → ModelPolicy
    pinned (some provider) (some id) =
        explicit_model (or_else (truthy m.requested) (provider ++ "/" ++ id)) provider id
    pinned (some provider) none = settings_model
    pinned none id = settings_model

unfoldable pub normalize_thinking : RawThinking → ThinkingPolicy
normalize_thinking t =
    if is_explicit t.source then pinned (truthy t.resolved) else settings_thinking
  where
    pinned : Option String → ThinkingPolicy
    pinned (some resolved) = explicit_thinking (or_else (truthy t.requested) resolved) resolved
    pinned none = settings_thinking

pub normalize_cron_launch : RawLaunch → Launch
unfolding normalize_model normalize_thinking
normalize_cron_launch launch = record {
  model = normalize_model launch.model;
  thinking = normalize_thinking launch.thinking;
}

-- The value that a policy is, as the code reads it back.
abbrev raw_model : ModelPolicy → RawModel
raw_model settings_model = record {
  source = some "settings";
  requested = none;
  provider = none;
  id = none;
}
raw_model (explicit_model requested provider id) = record {
  source = some "explicit";
  requested = some requested;
  provider = some provider;
  id = some id;
}

abbrev raw_thinking : ThinkingPolicy → RawThinking
raw_thinking settings_thinking = record {
  source = some "settings";
  requested = none;
  resolved = none;
}
raw_thinking (explicit_thinking requested resolved) = record {
  source = some "explicit";
  requested = some requested;
  resolved = some resolved;
}

abbrev pub raw_launch : Launch → RawLaunch
raw_launch launch = record {
  model = raw_model launch.model;
  thinking = raw_thinking launch.thinking;
}

-- The ternaries that build a pin from request fields.
abbrev requested_model : Option String → Option String → ModelPolicy
requested_model provider model = both (truthy provider) (truthy model)
  where
    both : Option String → Option String → ModelPolicy
    both (some p) (some m) = explicit_model (p ++ "/" ++ m) p m
    both (some p) none = settings_model
    both none m = settings_model

abbrev requested_thinking : Option String → ThinkingPolicy
requested_thinking level = elim (truthy level) [
  | none ↦ settings_thinking
  | some l ↦ explicit_thinking l l
]

unfoldable cron_launch_from_request : Option String → Option String → Option String → Launch
unfolding normalize_cron_launch
cron_launch_from_request provider model thinking_level = normalize_cron_launch (record {
  model = raw_model (requested_model provider model);
  thinking = raw_thinking (requested_thinking thinking_level);
})

-- A field of an update: left out, `null`, or a text.
pub data Patch : Type 0 where
  keep clear : Patch
  put : String → Patch

abbrev is_present : Patch → Bool
is_present keep = false
is_present clear = true
is_present (put s) = true

abbrev patch_value : Patch → Option String
patch_value keep = none
patch_value clear = none
patch_value (put s) = some s

pub merge_cron_launch : Launch → Patch → Patch → Patch → Launch
unfolding normalize_cron_launch
merge_cron_launch current provider model thinking_level =
    let next = normalize_cron_launch (raw_launch current) in
    let has_model = is_present provider || is_present model in
    let has_thinking = is_present thinking_level in
    if not has_model && not has_thinking
    then next
    else normalize_cron_launch (record {
      model = raw_model (
          if has_model
          then requested_model (patch_value provider) (patch_value model)
          else next.model);
      thinking =
          raw_thinking (
            if has_thinking
            then requested_thinking (patch_value thinking_level)
            else next.thinking);
    })

-- Normalizing what was normalized changes nothing, so a policy survives being stored and read back.
pub normalize_cron_launch_idem :
    (launch : RawLaunch)
    → normalize_cron_launch (raw_launch (normalize_cron_launch launch))
      ≡ normalize_cron_launch launch
unfolding normalize_cron_launch
normalize_cron_launch_idem launch = ground arith

-- An update replaces the model policy exactly if it names a provider or a model, and the thinking
-- policy exactly if it names a level; the other policy stays as it was stored.
pub merge_cron_launch_lem :
    (current : Launch) (provider model thinking_level : Patch)
    → merge_cron_launch current provider model thinking_level ≡ record {
      model =
          if is_present provider || is_present model
          then requested_model (patch_value provider) (patch_value model)
          else normalize_model (raw_model current.model);
      thinking =
          if is_present thinking_level
          then requested_thinking (patch_value thinking_level)
          else normalize_thinking (raw_thinking current.thinking);
    }
unfolding merge_cron_launch
merge_cron_launch_lem current provider model thinking_level = ground arith
