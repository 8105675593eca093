-- ===== src/Protocol/Bounds.antt =====
-- The usage that src/protocol.mjs lets through.
use persistent_harness.Prelude.{
  ℕ, ◌≤◌, ◌≡◌, subst, arith, String, true, ◌&&◌, ◌||◌, Option, none, some, List, [], ◌∷◌, is_some,
  is_none, ok, >>=-elim, ok_inj,
}
use mathlib.Core.Bool.{false≢true}
use persistent_harness.Js.Values.{Json, Entry, get}
use persistent_harness.Protocol.Reading.{
  check, exact_record, string, integer, finite, nullable, optionally, safe_max,
}
use persistent_harness.Protocol.Checked.{require-inv, integer-inv}
use persistent_harness.Protocol.Settings.{
  Usage, usage, usage_keys, count_in, not_more_than, ContextUsage, context_usage,
}

-- What is given of the reasoning is a part of the output.
abbrev IsPart : ℕ → Option ℕ → Type 0
IsPart output none = Unit
IsPart output (some reasoning) = reasoning ≤ output

-- Every count is exact in a number of JavaScript, and the reasoning is a part of the output.
pub record IsExact (u : Usage) : Type 0 where
  pub input_exact : u.input ≤ safe_max
  pub output_exact : u.output ≤ safe_max
  pub cache_read_exact : u.cache_read ≤ safe_max
  pub cache_write_exact : u.cache_write ≤ safe_max
  pub total_exact : u.total_tokens ≤ safe_max
  pub reasoning_part : IsPart u.output u.reasoning

part :
    (output : ℕ) (reasoning : Option ℕ)
    → not_more_than output reasoning ≡ true
    → IsPart output reasoning
part output none h = tt
part output (some n) h = ground arith

count : (value : List Entry) (key : String) (n : ℕ) → count_in value key ≡ ok n → n ≤ safe_max
count value key n h = let (_, _, b) = integer-inv (get value key) 0 safe_max n h in b

-- A usage that is accepted has counts that are exact and no more reasoning than output.
pub usage-IsExact : (params : Option Json) (u : Usage) → usage params ≡ ok u → IsExact u
unfolding usage
usage-IsExact params u h = >>=-elim (exact_record params usage_keys) _ u h λ value _ h1.
    >>=-elim (string (get value "entryId") 128) _ u h1 λ _ _ h2.
      >>=-elim (string (get value "provider") 128) _ u h2 λ _ _ h3.
        >>=-elim (string (get value "model") 256) _ u h3 λ _ _ h4.
          >>=-elim (count_in value "input") _ u h4 λ input e4 h5.
            >>=-elim (count_in value "output") _ u h5 λ output e5 h6.
              >>=-elim (count_in value "cacheRead") _ u h6 λ read e6 h7.
                >>=-elim (count_in value "cacheWrite") _ u h7 λ write e7 h8.
                  >>=-elim (optionally (get value "reasoning") (λ v. integer v 0 safe_max)) _ u h8
                    λ reasoning _ h9. >>=-elim (count_in value "totalTokens") _ u h9 λ total e9 h10.
                      >>=-elim (finite (get value "costTotal") 1000000000) _ u h10 λ _ _ h11.
                        >>=-elim (check (not_more_than output reasoning)) _ u h11 λ w g h12.
                          let i = count value "input" input e4 in
                          let o = count value "output" output e5 in
                          let r = count value "cacheRead" read e6 in
                          let c = count value "cacheWrite" write e7 in
                          let t = count value "totalTokens" total e9 in
                          subst IsExact (ok_inj h12) (record {
                            input_exact = i;
                            output_exact = o;
                            cache_read_exact = r;
                            cache_write_exact = c;
                            total_exact = t;
                            reasoning_part = part output reasoning (require-inv _ _ w g);
                          })

-- The tokens and the share of a context are both known or both not.
abbrev pub IsTogether : Option ℕ → Option Json → Type 0
IsTogether none none = Unit
IsTogether (some n) (some p) = Unit
IsTogether none (some p) = ⊥
IsTogether (some n) none = ⊥

together :
    (n : Option ℕ) (p : Option Json)
    → is_some n && is_some p || is_none n && is_none p ≡ true
    → IsTogether n p
together none none h = tt
together none (some p) h = absurd (false≢true h)
together (some n) none h = absurd (false≢true h)
together (some n) (some p) h = tt

-- In a context usage that is accepted the window is from 1 through ten million, and the tokens and the
-- share are both known or both not.
pub context_usage-IsTogether :
    (params : Option Json) (u : ContextUsage)
    → context_usage params ≡ ok u
    → (1 ≤ u.context_window) × (u.context_window ≤ 10000000) × IsTogether u.tokens u.percent
unfolding context_usage
context_usage-IsTogether params u h =
    >>=-elim (exact_record params ("tokens" ∷ "contextWindow" ∷ "percent" ∷ [])) _ u h λ value _ h1.
      >>=-elim (integer (get value "contextWindow") 1 10000000) _ u h1 λ window e h2.
        >>=-elim (nullable (get value "tokens") (λ v. integer v 0 10000000)) _ u h2 λ tokens _ h3.
          >>=-elim (nullable (get value "percent") (λ v. finite v 10000)) _ u h3 λ percent _ h4.
            >>=-elim
              (check (is_some tokens && is_some percent || is_none tokens && is_none percent)) _ u
              h4
              λ w g h5.
                let (_, low, high) = integer-inv (get value "contextWindow") 1 10000000 window e in
                subst
                  (λ c.
                    (1 ≤ c.context_window)
                    × (c.context_window ≤ 10000000)
                    × IsTogether c.tokens c.percent)
                  (ok_inj h5) (low, high, together tokens percent (require-inv _ _ w g))
