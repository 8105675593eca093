-- ===== src/Retry/Fenced.antt =====
-- When src/inference-retry.mjs makes an inference again: only after an attempt that is over, that let
-- nothing into the conversation and had no effect, and within the policy.
use persistent_harness.Prelude.{
  ℕ, ◌-◌, ◌*◌, ◌^◌, ◌≤◌, ◌≡◌, refl, String, Bool, true, false, not, ◌||◌, Option, none, some, List,
  arith, ltb, sym, ap, ◌∙◌, subst, ok_inj, Outcome-cases, inl, inr, is_some, ok, >>=-inv,
}
use mathlib.Core.Bool.{false≢true}
use persistent_harness.Retry.Values.{Value, number, boolean, count}
use persistent_harness.Retry.Report.{RawCall, RawReport, Projected, project, is_valid}
use persistent_harness.Retry.Checks.{
  Classification, Policy, Input, Observations, Delay, Snapshot, stop_if, ◌>>◌, or_stop, text_is,
  same_id, observe, check_observations, check_report, owned_by_adapter, is_completed,
  max_timer_delay_ms, base_delay, check_delay, check_policy,
}
use persistent_harness.Retry.Decision.{
  snapshot, check_transport, check_error, decide, evaluate_inference_retry,
}

-- Nothing was admitted or dispatched, no tool of the provider ran, and the attempt cannot go on.
abbrev pub IsOver : Observations → Type 0
IsOver o =
    (o.admitted_count ≡ some 0)
    × (o.dispatched_count ≡ some 0)
    × (o.provider_tools ≡ some false)
    × (o.aborted ≡ some false)
    × (o.retired ≡ some true)
    × (o.fenced ≡ some true)

check_observations-IsOver :
    (stopped : Bool) (o : Observations)
    → check_observations stopped o ≡ ok tt
    → (stopped ≡ false) × IsOver o
unfolding check_observations
check_observations-IsOver stopped o h = ground arith

-- The transport reports on this very attempt, that it is retired and fenced and ran no tools, and
-- that it failed or that its outcome is unknown.
abbrev pub IsConfirmed : Snapshot → Projected → Type 0
IsConfirmed s p =
    (same_id s.request_id p.request_id ≡ true)
    × (same_id s.attempt_id p.attempt_id ≡ true)
    × (p.provider_tools ≡ some false)
    × (p.retired ≡ some true)
    × (p.fenced ≡ some true)
    × ((owned_by_adapter p.outcome || is_completed p.outcome) ≡ false)

check_report-IsConfirmed :
    (s : Snapshot) (valid : Bool) (p : Projected)
    → (valid ≡ true → is_some p.provider_tools ≡ true)
    → check_report s valid p ≡ ok tt
    → (valid ≡ true) × IsConfirmed s p
unfolding check_report
check_report-IsConfirmed s valid p some_tools h = ground arith

is_valid-tools :
    (calls : Option (List RawCall)) (p : Projected)
    → is_valid calls p ≡ true
    → is_some p.provider_tools ≡ true
unfolding is_valid
is_valid-tools calls p h = ground arith

or_stop-inv :
    {A : Type 0} (o : Option A) (c : Classification) (a : A) → or_stop o c ≡ ok a → o ≡ some a
or_stop-inv none c a h = cc
or_stop-inv (some b) c a h = cc

-- The policy allows another attempt, and a timer can wait for the delay: `baseDelayMs`, doubled for
-- each attempt before this one.
pub record IsWithin (attempt_number : ℕ) (p : Policy) (delay : Delay) : Type 0 where
  pub enabled : boolean p.enabled ≡ some true
  pub max_retries : ℕ
  pub has_max : count p.max_retries ≡ some max_retries
  pub in_budget : attempt_number ≤ max_retries
  pub base : ℕ
  pub has_base : p.base_delay_ms ≡ number base delay.scale
  pub doubled : delay.parts ≡ base * 2 ^ (attempt_number - 1)
  pub in_range : delay.parts ≤ max_timer_delay_ms * 2 ^ delay.scale
  pub few : attempt_number ≤ 1024

within_delay :
    (attempt_number : ℕ) (base delay : Delay)
    → check_delay attempt_number base ≡ ok delay
    → (delay.parts ≡ base.parts * 2 ^ (attempt_number - 1))
      × (delay.scale ≡ base.scale)
      × (delay.parts ≤ max_timer_delay_ms * 2 ^ delay.scale)
      × (attempt_number ≤ 1024)
unfolding check_delay
within_delay attempt_number base delay h = ground arith

base_delay-inv :
    (v : Value) (base : Delay) → base_delay v ≡ some base → v ≡ number base.parts base.scale
base_delay-inv v base h = ground arith

policy_IsWithin :
    (attempt_number max_retries : ℕ) (p : Policy) (enabled : Bool) (base delay : Delay)
    → boolean p.enabled ≡ some enabled
    → count p.max_retries ≡ some max_retries
    → base_delay p.base_delay_ms ≡ some base
    → (stop_if (not enabled) Classification.policy_disabled
        >> (stop_if (ltb max_retries attempt_number) Classification.retry_budget_exhausted
            >> check_delay attempt_number base))
      ≡ ok delay
    → IsWithin attempt_number p delay
policy_IsWithin attempt_number max_retries p true base delay e m b h =
    let (_, budget, h') =
      >>=-inv (stop_if (ltb max_retries attempt_number) Classification.retry_budget_exhausted)
        (λ _. check_delay attempt_number base) delay h in
    let (doubled, scale, in_range, few) = within_delay attempt_number base delay h' in
    record {
      enabled = e;
      max_retries = max_retries;
      has_max = m;
      in_budget = ground arith;
      base = base.parts;
      has_base = base_delay-inv p.base_delay_ms base b ∙ ap (number base.parts) (sym scale);
      doubled = doubled;
      in_range = in_range;
      few = few;
    }
policy_IsWithin attempt_number max_retries p false base delay e m b h = cc

check_policy-IsWithin :
    (attempt_number : ℕ) (policy : Option Policy) (delay : Delay)
    → check_policy attempt_number policy ≡ ok delay
    → (p : Policy) × (policy ≡ some p) × IsWithin attempt_number p delay
unfolding check_policy
check_policy-IsWithin attempt_number none delay h = cc
check_policy-IsWithin attempt_number (some p) delay h =
    let (enabled, e, h1) =
      >>=-inv (or_stop (boolean p.enabled) Classification.invalid_policy) _ delay h in
    let (max_retries, m, h2) =
      >>=-inv (or_stop (count p.max_retries) Classification.invalid_policy) _ delay h1 in
    let (base, b, h3) =
      >>=-inv (or_stop (base_delay p.base_delay_ms) Classification.invalid_policy) _ delay h2 in
    (
      p,
      refl,
      policy_IsWithin attempt_number max_retries p enabled base delay (or_stop-inv _ _ enabled e)
          (or_stop-inv _ _ max_retries m) (or_stop-inv _ _ base b) h3,
    )

module _ (units : String → List ℕ) where
  abbrev pub Confirmed : Snapshot → Option RawReport → Type 0
  Confirmed s none = Unit
  Confirmed s (some r) =
      (is_valid r.observed_calls (project units r) ≡ true) × IsConfirmed s (project units r)

  check_transport-Confirmed :
      (s : Snapshot) (report : Option RawReport)
      → check_transport units s report ≡ ok tt
      → Confirmed s report
  unfolding check_transport
  check_transport-Confirmed s none h = tt
  check_transport-Confirmed s (some r) h =
      check_report-IsConfirmed s (is_valid r.observed_calls (project units r)) (project units r)
        (is_valid-tools r.observed_calls (project units r)) h

  -- The attempt has an identity, is over, is confirmed by its transport where that reports, and the
  -- policy allows another one after the delay.
  pub record IsSafe (i : Input) (delay : Delay) : Type 0 where
    pub attempt : Snapshot
    pub identified : snapshot units i ≡ ok attempt
    pub not_aborted : text_is "aborted" i.stop_reason ≡ false
    pub over : IsOver (observe i)
    pub confirmed : Confirmed attempt i.transport_report
    pub policy : Policy
    pub has_policy : i.policy ≡ some policy
    pub within : IsWithin attempt.attempt_number policy delay

  decide-IsSafe :
      (i : Input) (reason : Classification) (delay : Delay)
      → decide units i ≡ ok (reason, delay)
      → IsSafe i delay
  unfolding decide
  decide-IsSafe i reason delay h =
      let (s, hs, h1) = >>=-inv (snapshot units i) _ (reason, delay) h in
      let (_, ho, h2) =
        >>=-inv (check_observations (text_is "aborted" i.stop_reason) (observe i)) _ (reason, delay)
          h1 in
      let (_, ht, h3) = >>=-inv (check_transport units s i.transport_report) _ (reason, delay) h2 in
      let (d, hp, h4) = >>=-inv (check_policy s.attempt_number i.policy) _ (reason, delay) h3 in
      let (c, hc, h5) = >>=-inv (check_error units i) _ (reason, delay) h4 in
      let same : d ≡ delay = ap (λ x. x.1) (ok_inj h5) in
      let (going, over) = check_observations-IsOver _ (observe i) ho in
      let (p, has, within) =
        check_policy-IsWithin s.attempt_number i.policy delay
          (subst (λ x. check_policy s.attempt_number i.policy ≡ ok x) same hp) in
      record {
        attempt = s;
        identified = hs;
        not_aborted = going;
        over = over;
        confirmed = check_transport-Confirmed s i.transport_report ht;
        policy = p;
        has_policy = has;
        within = within;
      }

  -- If the decision is a retry, the attempt has an identity, admitted and dispatched nothing, ran no
  -- tools of the provider, was not aborted, and is retired and fenced; the transport, where it
  -- reports, confirms this; and the policy is enabled, is not used up, and gives the delay, which a
  -- timer can hold.
  pub evaluate_inference_retry-IsSafe :
      (i : Input)
      → (evaluate_inference_retry units i).retry ≡ true
      → IsSafe i (evaluate_inference_retry units i).delay
  unfolding evaluate_inference_retry
  evaluate_inference_retry-IsSafe i h = elim (Outcome-cases (decide units i)) [
    | inl ((reason, delay), e) ↦ rw (e, evaluate_inference_retry) (decide-IsSafe i reason delay e)
    | inr (c, e) ↦ absurd (false≢true (rw (e, evaluate_inference_retry) at h))
  ]
