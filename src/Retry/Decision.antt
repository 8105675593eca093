-- ===== src/Retry/Decision.antt =====
-- `evaluateInferenceRetry` of src/inference-retry.mjs: its checks in a row, and its result.
use persistent_harness.Prelude.{
  ℕ, String, Bool, true, false, not, ◌||◌, Option, none, some, List, ltb, ◌==◌, is_none, length, ok,
  err, ◌>>=◌,
}
use persistent_harness.Retry.Values.{
  Value, undefined, other, truth, number, text, count, ordinal, id, is_false,
}
use persistent_harness.Retry.Report.{RawReport, Projected, is_unknown, project, is_valid}
use persistent_harness.Retry.Checks.{
  Classification, Input, Observations, Delay, Decided, stop_if, or_stop, text_is, Snapshot, observe,
  check_observations, check_report, check_policy, classify, ◌>>◌, invalid_snapshot, not_error,
  unproven_error, missing_public_retry_api,
}

module _ (units : String → List ℕ) where
  pub snapshot : Input → Decided Snapshot
  snapshot i = do
    request_id ← or_stop (id units i.request_id) invalid_snapshot
    attempt_id ← or_stop (id units i.attempt_id) invalid_snapshot
    attempt_number ← or_stop (ordinal i.attempt_number) invalid_snapshot
    stop_if (is_none (count i.snapshot_version)) invalid_snapshot
    ok (record {
      request_id = request_id;
      attempt_id = attempt_id;
      attempt_number = attempt_number;
    })

  unfoldable pub check_transport : Snapshot → Option RawReport → Decided (Unit {0})
  unfolding check_report
  check_transport s none = ok tt
  check_transport s (some r) =
      check_report s (is_valid r.observed_calls (project units r)) (project units r)

  abbrev pub outcome_unknown : Option RawReport → Bool
  outcome_unknown none = false
  outcome_unknown (some r) = is_unknown (project units r).outcome

  -- `errorMessage`, where it is a text that is not empty and not too long.
  abbrev pub message_of : Value → Decided String
  message_of (text m) =
      stop_if (length (units m) == 0 || ltb 65536 (length (units m))) unproven_error >> ok m
  message_of undefined = err unproven_error
  message_of other = err unproven_error
  message_of (truth b) = err unproven_error
  message_of (number m k) = err unproven_error

  unfoldable pub check_error : Input → Decided Classification
  unfolding classify
  check_error i = do
    stop_if (not (text_is "error" i.stop_reason)) not_error
    message ← message_of i.error_message
    retryable ← or_stop i.is_retryable_assistant_error missing_public_retry_api
    overflow ← or_stop i.is_context_overflow missing_public_retry_api
    classify (outcome_unknown i.transport_report) retryable overflow message

  -- The decision: why there is no retry, or the reason and the delay of one.
  unfoldable pub decide : Input → Decided (Classification × Delay)
  unfolding snapshot observe check_observations check_transport check_policy check_error
  decide i = do
    s ← snapshot i
    check_observations (text_is "aborted" i.stop_reason) (observe i)
    check_transport s i.transport_report
    delay ← check_policy s.attempt_number i.policy
    reason ← check_error i
    ok (reason, delay)

-- The attempt as it is put on record; the transport's report, with what may have been processed and
-- used, or that there was none.
pub data PriorAttempt : Type 0 where
  reported : Projected → Bool → Bool → PriorAttempt
  unreported : Option String → Option String → PriorAttempt

abbrev or_true : Option Bool → Bool
or_true none = true
or_true (some b) = b

-- The result: `retry`, `delayMs` and `classification`, and the record of the decision, which repeats
-- them and adds what they were decided from.
pub record Decision : Type 0 where
  pub retry : Bool
  pub delay : Delay
  pub classification : Classification
  pub request_id : Option String
  pub attempt_id : Option String
  pub attempt_number : Option ℕ
  pub snapshot_version : Option ℕ
  pub observations : Observations
  pub prior_attempt : PriorAttempt

module _ (units : String → List ℕ) where
  abbrev prior_of : Input → Option RawReport → PriorAttempt
  prior_of i none = unreported (id units i.request_id) (id units i.attempt_id)
  prior_of i (some r) =
      let p = project units r in
      reported p (is_unknown p.outcome || not (is_false p.sent))
        (is_unknown p.outcome || or_true p.possible_usage)

  abbrev finish : Input → Classification → Bool → Delay → Decision
  finish i classification retry delay = record {
    retry = retry;
    delay = delay;
    classification = classification;
    request_id = id units i.request_id;
    attempt_id = id units i.attempt_id;
    attempt_number = ordinal i.attempt_number;
    snapshot_version = count i.snapshot_version;
    observations = observe i;
    prior_attempt = prior_of i i.transport_report;
  }

  unfoldable pub evaluate_inference_retry : Input → Decision
  unfolding decide observe
  evaluate_inference_retry i = elim (decide units i) [
    | ok (classification, delay) ↦ finish i classification true delay
    | err classification ↦ finish i classification false (record { parts = 0; scale = 0 })
  ]
