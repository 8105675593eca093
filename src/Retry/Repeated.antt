-- ===== src/Retry/Repeated.antt =====
-- That src/inference-retry.mjs does make an inference again where it is safe to.
use persistent_harness.Prelude.{
  ℕ, ◌-◌, ◌*◌, ◌^◌, ◌≤◌, ◌≡◌, refl, String, true, false, Option, none, some, List, arith, length,
  le→ltb, subst, ap, sym, ◌∙◌, ◌⊎◌, inl, inr, ok,
}
use persistent_harness.Retry.Values.{text}
use persistent_harness.Retry.Report.{RawReport, Projected, project}
use persistent_harness.Retry.Checks.{
  Classification, retry_transient, retry_unknown, Verdict, says_true, says_other, Policy, Input,
  Observations, Delay, Snapshot, observe, check_observations, check_report, max_timer_delay_ms,
  check_delay, check_policy, classify, is_unknown_transport_error,
}
use persistent_harness.Retry.Decision.{
  check_transport, check_error, outcome_unknown, message_of, decide, evaluate_inference_retry,
}
use persistent_harness.Retry.Fenced.{IsWithin, IsOver, IsConfirmed, Confirmed, IsSafe}

over_passes : (o : Observations) → IsOver o → check_observations false o ≡ ok tt
unfolding check_observations
over_passes o (a, d, t, n, r, f) = rw (a, d, t, n, r, f) refl

confirmed_passes : (s : Snapshot) (p : Projected) → IsConfirmed s p → check_report s true p ≡ ok tt
unfolding check_report
confirmed_passes s p c = ground arith

-- A delay that a timer can hold passes.
delay_passes :
    (attempt_number base scale : ℕ)
    → attempt_number ≤ 1024
    → base * 2 ^ (attempt_number - 1) ≤ max_timer_delay_ms * 2 ^ scale
    → check_delay attempt_number (record { parts = base; scale = scale })
      ≡ ok (record { parts = base * 2 ^ (attempt_number - 1); scale = scale })
unfolding check_delay
delay_passes attempt_number base scale few fits = ground arith

policy_passes :
    (attempt_number : ℕ) (p : Policy) (delay : Delay)
    → IsWithin attempt_number p delay
    → check_policy attempt_number (some p) ≡ ok delay
unfolding check_policy
policy_passes attempt_number p delay w =
    rw (w.enabled, w.has_max, w.has_base, check_policy)
      (rw (le→ltb w.max_retries attempt_number w.in_budget) (
        delay_passes attempt_number w.base delay.scale w.few
          (subst (λ parts. parts ≤ max_timer_delay_ms * 2 ^ delay.scale) w.doubled w.in_range)
        ∙ ap (λ parts. ok (record { parts = parts; scale = delay.scale })) (sym w.doubled)))

module _ (units : String → List ℕ) where
  transport_passes :
      (s : Snapshot) (report : Option RawReport)
      → Confirmed units s report
      → check_transport units s report ≡ ok tt
  unfolding check_transport
  transport_passes s none c = refl
  transport_passes s (some r) (v, c) = rw v (confirmed_passes s (project units r) c)

  -- The error is one that is worth another attempt: no overflow of the context, and either a
  -- transport's outcome is unknown for one of the known conditions, or it is not unknown and pi-ai
  -- takes the error for transient.
  pub record IsRepeatable (i : Input) (reason : Classification) : Type 0 where
    pub message : String
    pub is_error : i.stop_reason ≡ text "error"
    pub has_message : i.error_message ≡ text message
    pub not_empty : 1 ≤ length (units message)
    pub not_long : length (units message) ≤ 65536
    pub retryable : String → Verdict
    pub has_retryable : i.is_retryable_assistant_error ≡ some retryable
    pub overflow : String → Verdict
    pub has_overflow : i.is_context_overflow ≡ some overflow
    pub no_overflow : overflow message ≡ says_other
    pub transient :
        ((outcome_unknown units i.transport_report ≡ true)
          × (is_unknown_transport_error message ≡ true)
          × (reason ≡ retry_unknown))
        ⊎ ((outcome_unknown units i.transport_report ≡ false)
            × (retryable message ≡ says_true)
            × (reason ≡ retry_transient))

  classify_passes :
      (i : Input) (reason : Classification) (r : IsRepeatable i reason)
      → classify (outcome_unknown units i.transport_report) r.retryable r.overflow r.message
        ≡ ok reason
  unfolding classify
  classify_passes i reason r = elim r.transient [
    | inl (u, m, e) ↦ rw (r.no_overflow, u, e, m, classify) refl
    | inr (u, m, e) ↦ rw (r.no_overflow, u, e, m, classify) refl
  ]

  message_passes :
      (m : String)
      → 1 ≤ length (units m)
      → length (units m) ≤ 65536
      → message_of units (text m) ≡ ok m
  message_passes m lo hi = ground arith

  error_passes :
      (i : Input) (reason : Classification)
      → IsRepeatable i reason
      → check_error units i ≡ ok reason
  unfolding check_error
  error_passes i reason r =
      rw (r.is_error, r.has_message, r.has_retryable, r.has_overflow, check_error)
        (rw (message_passes r.message r.not_empty r.not_long) (classify_passes i reason r))

  decide_passes :
      (i : Input) (reason : Classification) (delay : Delay)
      → IsSafe units i delay
      → IsRepeatable i reason
      → decide units i ≡ ok (reason, delay)
  unfolding decide
  decide_passes i reason delay s r =
      rw (s.identified, s.not_aborted, decide)
        (rw (over_passes (observe i) s.over) (
          rw (transport_passes s.attempt i.transport_report s.confirmed) (
            rw (s.has_policy, policy_passes s.attempt.attempt_number s.policy delay s.within)
              (rw (error_passes i reason r) refl))))

  -- Where the attempt is safe to repeat after the delay and its error is worth it, the decision is a
  -- retry after that delay, for that reason.
  pub evaluate_inference_retry-repeats :
      (i : Input) (reason : Classification) (delay : Delay)
      → IsSafe units i delay
      → IsRepeatable i reason
      → ((evaluate_inference_retry units i).retry ≡ true)
        × ((evaluate_inference_retry units i).delay ≡ delay)
        × ((evaluate_inference_retry units i).classification ≡ reason)
  unfolding evaluate_inference_retry
  evaluate_inference_retry-repeats i reason delay s r =
      let e : decide units i ≡ ok (reason, delay) = decide_passes i reason delay s r in
      rw (e, evaluate_inference_retry) (refl, refl, refl)
