-- ===== src/Tests/RetryRuns.antt =====
-- The theorems on src/inference-retry.mjs at one attempt: the third of five, which failed before
-- anything was admitted.
use persistent_harness.Prelude.{
  ℕ, ◌≡◌, refl, String, true, false, none, some, List, [], ◌∷◌, inr, arith, subst,
}
use persistent_harness.Retry.Values.{truth, number, text}
use persistent_harness.Retry.Checks.{Verdict, says_true, says_other, Input, Delay, retry_transient}
use persistent_harness.Retry.Decision.{evaluate_inference_retry}
use persistent_harness.Retry.Fenced.{IsSafe, evaluate_inference_retry-IsSafe}
use persistent_harness.Retry.Repeated.{IsRepeatable, evaluate_inference_retry-repeats}

-- Each text counts as one letter.
abbrev units : String → List ℕ
units s = b'a' ∷ []

abbrev retryable : String → Verdict
retryable s = says_true

abbrev overflow : String → Verdict
overflow s = says_other

abbrev third_of_five : Input
third_of_five = record {
  is_retryable_assistant_error = some retryable;
  is_context_overflow = some overflow;
  transport_report = none;
  policy =
      some (record { enabled = truth true; max_retries = number 5 0; base_delay_ms = number 3 1 });
  stop_reason = text "error";
  error_message = text "overloaded";
  request_id = text "a";
  attempt_id = text "b";
  attempt_number = number 3 0;
  snapshot_version = number 0 0;
  admitted_count = number 0 0;
  dispatched_count = number 0 0;
  provider_tools = truth false;
  aborted = truth false;
  retired = truth true;
  fenced = truth true;
}

abbrev six : Delay
six = record { parts = 12; scale = 1 }

retries : (evaluate_inference_retry units third_of_five).retry ≡ true
unfolding evaluate_inference_retry
retries = refl

is_six : (evaluate_inference_retry units third_of_five).delay ≡ six
unfolding evaluate_inference_retry
is_six = refl

evaluate_inference_retry-IsSafe_example :
    IsSafe units third_of_five (evaluate_inference_retry units third_of_five).delay
evaluate_inference_retry-IsSafe_example =
    evaluate_inference_retry-IsSafe units third_of_five retries

worth : IsRepeatable units third_of_five retry_transient
worth = record {
  message = "overloaded";
  is_error = refl;
  has_message = refl;
  not_empty = omega arith;
  not_long = omega arith;
  retryable = retryable;
  has_retryable = refl;
  overflow = overflow;
  has_overflow = refl;
  no_overflow = refl;
  transient = inr (refl, refl, refl);
}

evaluate_inference_retry-repeats_example :
    ((evaluate_inference_retry units third_of_five).retry ≡ true)
    × ((evaluate_inference_retry units third_of_five).delay ≡ six)
    × ((evaluate_inference_retry units third_of_five).classification ≡ retry_transient)
evaluate_inference_retry-repeats_example =
    evaluate_inference_retry-repeats units third_of_five retry_transient six safe worth
  where
    safe : IsSafe units third_of_five six
    safe =
        subst (IsSafe units third_of_five) is_six
          (evaluate_inference_retry-IsSafe units third_of_five retries)
