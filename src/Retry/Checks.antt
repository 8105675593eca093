-- ===== src/Retry/Checks.antt =====
-- The checks of `evaluateInferenceRetry` (src/inference-retry.mjs), in its order. The two classifiers of an error are parameters
-- of an input; each may be missing, and may throw.
use persistent_harness.Prelude.{
  ℕ, ◌+◌, ◌-◌, ◌*◌, ◌^◌, String, Bool, true, false, not, ◌||◌, Option, none, some, str_eq, ltb,
  is_none, if◌then◌else◌, Outcome, ok, err, ◌>>=◌,
}
use persistent_harness.Retry.Values.{
  Value, undefined, other, truth, number, text, max_safe_integer, boolean, count, is_true, is_zero,
}
use persistent_harness.Retry.Report.{
  RawReport, Projected, Ending, not_sent, rejected, unknown, failed, completed, unproven,
}

pub data Classification : Type 0 where
  invalid_snapshot aborted unproven_observations local_admissions local_effects : Classification
  provider_tools unfenced_attempt invalid_transport_report identity_mismatch : Classification
  adapter_owned_retry completed_attempt policy_disabled invalid_policy : Classification
  retry_budget_exhausted unsafe_timer_delay not_error unproven_error : Classification
  missing_public_retry_api context_overflow unknown_condition_not_proven not_retryable :
      Classification
  classifier_failed retry_unknown retry_transient : Classification

-- What a classifier makes of the message of an error.
pub data Verdict : Type 0 where
  says_true says_other throws : Verdict

pub record Policy : Type 0 where
  pub enabled : Value
  pub max_retries : Value
  pub base_delay_ms : Value

-- `policy` and `transport_report` are `none` where they are undefined.
pub record Input : Type 0 where
  pub is_retryable_assistant_error : Option (String → Verdict)
  pub is_context_overflow : Option (String → Verdict)
  pub transport_report : Option RawReport
  pub policy : Option Policy
  pub stop_reason : Value
  pub error_message : Value
  pub request_id : Value
  pub attempt_id : Value
  pub attempt_number : Value
  pub snapshot_version : Value
  pub admitted_count : Value
  pub dispatched_count : Value
  pub provider_tools : Value
  pub aborted : Value
  pub retired : Value
  pub fenced : Value

pub record Observations : Type 0 where
  pub admitted_count : Option ℕ
  pub dispatched_count : Option ℕ
  pub provider_tools : Option Bool
  pub aborted : Option Bool
  pub retired : Option Bool
  pub fenced : Option Bool

-- A delay of `parts / 2 ^ scale` milliseconds.
pub record Delay : Type 0 where
  pub parts : ℕ
  pub scale : ℕ

-- `err` is a decision against a retry.
abbrev pub Decided : Type 0 → Type 0
Decided = Outcome Classification

abbrev pub stop_if : Bool → Classification → Decided (Unit {0})
stop_if true c = err c
stop_if false c = ok tt

infixl 5 ◌>>◌
abbrev pub ◌>>◌ : {A : Type 0} → Decided (Unit {0}) → Decided A → Decided A
m >> k = m >>= λ _. k

abbrev pub or_stop : {A : Type 0} → Option A → Classification → Decided A
or_stop none c = err c
or_stop (some a) c = ok a

abbrev pub text_is : String → Value → Bool
text_is s (text r) = str_eq r s
text_is s undefined = false
text_is s other = false
text_is s (truth b) = false
text_is s (number m k) = false

abbrev pub same_id : String → Option String → Bool
same_id s none = false
same_id s (some r) = str_eq r s

pub record Snapshot : Type 0 where
  pub request_id : String
  pub attempt_id : String
  pub attempt_number : ℕ

unfoldable pub observe : Input → Observations
observe i = record {
  admitted_count = count i.admitted_count;
  dispatched_count = count i.dispatched_count;
  provider_tools = boolean i.provider_tools;
  aborted = boolean i.aborted;
  retired = boolean i.retired;
  fenced = boolean i.fenced;
}

unfoldable pub check_observations : Bool → Observations → Decided (Unit {0})
check_observations stopped o = do
  stop_if (is_true o.aborted || stopped) aborted
  stop_if
      (is_none o.admitted_count
        || is_none o.dispatched_count
        || is_none o.provider_tools
        || is_none o.aborted
        || is_none o.retired
        || is_none o.fenced)
      unproven_observations
  stop_if (not (is_zero o.admitted_count)) local_admissions
  stop_if (not (is_zero o.dispatched_count)) local_effects
  stop_if (is_true o.provider_tools) provider_tools
  stop_if (not (is_true o.retired) || not (is_true o.fenced)) unfenced_attempt

abbrev pub owned_by_adapter : Ending → Bool
owned_by_adapter not_sent = true
owned_by_adapter rejected = true
owned_by_adapter unknown = false
owned_by_adapter failed = false
owned_by_adapter completed = false
owned_by_adapter unproven = false

abbrev pub is_completed : Ending → Bool
is_completed completed = true
is_completed not_sent = false
is_completed rejected = false
is_completed unknown = false
is_completed failed = false
is_completed unproven = false

unfoldable pub check_report : Snapshot → Bool → Projected → Decided (Unit {0})
check_report s valid p = do
  stop_if (not valid) invalid_transport_report
  stop_if (not (same_id s.request_id p.request_id) || not (same_id s.attempt_id p.attempt_id))
      identity_mismatch
  stop_if (is_true p.provider_tools) provider_tools
  stop_if (not (is_true p.retired) || not (is_true p.fenced)) unfenced_attempt
  stop_if (owned_by_adapter p.outcome) adapter_owned_retry
  stop_if (is_completed p.outcome) completed_attempt

abbrev pub max_timer_delay_ms : ℕ
max_timer_delay_ms = 2147483647

-- `baseDelayMs`, which may be any finite number from 0 on.
abbrev pub base_delay : Value → Option Delay
base_delay (number m k) = some (record { parts = m; scale = k })
base_delay undefined = none
base_delay other = none
base_delay (truth b) = none
base_delay (text s) = none

-- The product is exact, except that 2 ** 1024 and beyond are infinite.
unfoldable pub check_delay : ℕ → Delay → Decided Delay
check_delay attempt_number base =
    let parts = base.parts * 2 ^ (attempt_number - 1) in
    stop_if
      (ltb 1023 (attempt_number - 1)
        || ltb (max_timer_delay_ms * 2 ^ base.scale) parts
        || ltb max_safe_integer (attempt_number + 1))
      unsafe_timer_delay
    >> ok (record { parts = parts; scale = base.scale })

unfoldable pub check_policy : ℕ → Option Policy → Decided Delay
unfolding check_delay
check_policy attempt_number none = err policy_disabled
check_policy attempt_number (some p) = do
  enabled ← or_stop (boolean p.enabled) invalid_policy
  max_retries ← or_stop (count p.max_retries) invalid_policy
  base ← or_stop (base_delay p.base_delay_ms) invalid_policy
  stop_if (not enabled) policy_disabled
  stop_if (ltb max_retries attempt_number) retry_budget_exhausted
  check_delay attempt_number base

-- `UNKNOWN_TRANSPORT_ERRORS`.
abbrev pub is_unknown_transport_error : String → Bool
is_unknown_transport_error m =
    str_eq m "websocket_closed"
    || str_eq m "websocket_transport_error"
    || str_eq m "provider_timeout"
    || str_eq m "provider_response_not_successful"
    || str_eq m "provider_stream_incomplete"

abbrev classify_transient : Verdict → Decided Classification
classify_transient says_true = ok retry_transient
classify_transient says_other = err not_retryable
classify_transient throws = err classifier_failed

-- The classifiers, for a message that is no empty text and not too long.
unfoldable pub classify :
    Bool → (String → Verdict) → (String → Verdict) → String → Decided Classification
classify unknown_outcome retryable overflow message = elim (overflow message) [
  | says_true ↦ err context_overflow
  | throws ↦ err classifier_failed
  | says_other ↦
      if unknown_outcome
      then stop_if (not (is_unknown_transport_error message)) unknown_condition_not_proven
        >> ok retry_unknown
      else classify_transient (retryable message)
]
