-- ===== src/ChildPolicy/Granted.antt =====
-- What src/child-policy.mjs grants to a child session.
use persistent_harness.Prelude.{
  ℕ, ◌+◌, ◌≤◌, ◌≡◌, refl, sym, ap, ◌∙◌, subst, String, Bool, true, Option, none, some, List, [],
  ◌∷◌, arith, is_some, inl, inr, select, first, IsIn, first-IsIn, select-IsIn, ok, err, ◌>>=◌,
  >>=-inv, >>=-elim, ok_inj, some_inj, Option-cases,
}
use persistent_harness.Js.Values.{Json, object, Fields, Entry, entries_of, get, present}
use persistent_harness.Cron.Text.{Text}
use persistent_harness.ChildPolicy.Models.{
  Checked, PolicyError, guard, ◌>>◌, or_throw, or_throw-inv, guard-inv, same_level, Model, has_name,
  has_model_id, bounded, sole, normalize_models, resolve_exact_model, require_model,
  normalize_skill_catalog,
}
use persistent_harness.ChildPolicy.Launch.{
  Parent, LaunchPolicy, as_model, granted, depth_in, fork_of, check_depth, check_prompt,
  name_is_fit, resolve_model, resolve_thinking, resolve_child_launch_policy, same_ref,
}

sole-IsIn : (ms : List Model) (m : Model) → sole ms ≡ some m → IsIn m ms
sole-IsIn [] m h = cc
sole-IsIn (n ∷ []) m h = inl (some_inj h)
sole-IsIn (n ∷ o ∷ ms) m h = cc

by_id-IsIn :
    (ms : List Model) (m : Model)
    → elim ms as (λ _. Checked Model) [
      | [] ↦ err PolicyError.unresolved_reference
      | n ∷ ns ↦ elim ns [ [] ↦ ok n | o ∷ os ↦ err PolicyError.ambiguous_reference ]
    ]
      ≡ ok m
    → IsIn m ms
by_id-IsIn [] m h = cc
by_id-IsIn (n ∷ []) m h = inl (ok_inj h)
by_id-IsIn (n ∷ o ∷ ms) m h = cc

-- A reference resolves to one of the models that are there.
resolve_exact_model-IsIn :
    (reference : Option Json) (available : List Model) (m : Model)
    → resolve_exact_model reference available ≡ ok m
    → IsIn m available
unfolding resolve_exact_model
resolve_exact_model-IsIn reference available m h =
    let (name, _, h') = >>=-inv (bounded 384 reference PolicyError.invalid_reference) _ m h in
    elim (Option-cases (sole (select (has_name name) available))) [
      | inl e ↦
          select-IsIn (has_model_id name) available m
            (by_id-IsIn (select (has_model_id name) available) m (rw e at h'))
      | inr (n, e) ↦
          select-IsIn (has_name name) available m
            (sole-IsIn (select (has_name name) available) m (e ∙ ap some (ok_inj (rw e at h'))))
    ]

resolve_model-IsIn :
    (requested configured : Option Json) (parent : Model) (available : List Model) (m : Model)
    → IsIn parent available
    → resolve_model requested configured parent available ≡ ok m
    → IsIn m available
unfolding resolve_model
resolve_model-IsIn (some r) c parent available m p h =
    resolve_exact_model-IsIn (some r) available m h
resolve_model-IsIn none (some c) parent available m p h =
    resolve_exact_model-IsIn (some c) available m h
resolve_model-IsIn none none parent available m p h = subst (λ x. IsIn x available) (ok_inj h) p

-- The child is one level deeper than its parent, and no deeper than the limit, which is 4 at most.
abbrev pub IsWithinDepth : Parent → Option Json → ℕ → Type 0
IsWithinDepth parent max_depth depth =
    (depth ≡ parent.depth + 1)
    × ((most : ℕ) × (depth_in max_depth ≡ some most) × (depth ≤ most) × (most ≤ 4))

check_depth-IsWithinDepth :
    (parent : Parent) (max_depth : Option Json) (depth : ℕ)
    → check_depth parent max_depth ≡ ok depth
    → IsWithinDepth parent max_depth depth
unfolding check_depth
check_depth-IsWithinDepth parent max_depth depth h =
    >>=-elim (or_throw (depth_in max_depth) PolicyError.invalid_depth) _ depth h λ most e h'.
      (ground arith, (most, or_throw-inv (depth_in max_depth) _ most e, ground arith, ground arith))

-- The chosen model is one of those on offer, and the chosen level is one of its levels.
pub record IsOffered (available : List Model) (policy : LaunchPolicy) : Type 0 where
  pub chosen : Model
  pub is_available : IsIn chosen available
  pub same_model : policy.model.resolved ≡ as_model chosen
  pub has_level :
      is_some (first (same_level policy.thinking.resolved) chosen.thinking_levels) ≡ true

module _ (show : Json → String) where
  -- From the choice of the model on.
  module _ (parent : Parent) (cm cl : Option Json) (fields : List Entry) (available : List Model)
      (from : Model) (depth : ℕ) (prompt : Text) (fork : Bool) where
    abbrev rest : Checked LaunchPolicy
    rest = do
      model ← resolve_model (present (get fields "model")) (present cm) from available
      thinking ←
          resolve_thinking (present (get fields "thinkingLevel")) (present cl)
            (get fields "parentThinkingLevel")
      guard (is_some (first (same_level thinking.resolved) model.thinking_levels))
          PolicyError.level_not_supported
      catalog ← normalize_skill_catalog (get fields "skillCatalog")
      ok (granted parent fields (present cm) depth prompt fork model thinking catalog)

    rest-IsOffered :
        (policy : LaunchPolicy)
        → IsIn from available
        → rest ≡ ok policy
        → (policy.depth ≡ depth) × IsOffered available policy
    rest-IsOffered policy there h =
        >>=-elim (resolve_model (present (get fields "model")) (present cm) from available) _ policy
          h
          λ m em h1.
            >>=-elim
              (resolve_thinking (present (get fields "thinkingLevel")) (present cl)
                (get fields "parentThinkingLevel"))
              _ policy h1
              λ th _ h2.
                >>=-elim
                  (guard (is_some (first (same_level th.resolved) m.thinking_levels))
                    PolicyError.level_not_supported)
                  _ policy h2
                  λ _ lev h3.
                    >>=-elim (normalize_skill_catalog (get fields "skillCatalog")) _ policy h3
                      λ catalog _ h4.
                        subst (λ p. (p.depth ≡ depth) × IsOffered available p) (ok_inj h4)
                          (
                            refl,
                            record {
                              chosen = m;
                              is_available =
                                  resolve_model-IsIn (present (get fields "model")) (present cm)
                                    from available m there em;
                              same_model = refl;
                              has_level = guard-inv _ _ _ lev;
                            },
                          )

  -- A request that is granted: its parent is there, the child is one level deeper and within the limit,
  -- and its model is one of the request's, which are distinct, with one of the levels of that model.
  pub resolve_child_launch_policy-IsOffered :
      (parent : Parent) (configured_model configured_level max_depth : Option Json)
      (fields : Fields) (policy : LaunchPolicy)
      → resolve_child_launch_policy show
          (some (object fields))
          (some parent)
          configured_model
          configured_level
          max_depth
        ≡ ok policy
      → IsWithinDepth parent max_depth policy.depth
        × ((available : List Model) × (normalize_models (get (entries_of fields) "availableModels")
              ≡ ok available)
            × IsOffered available policy)
  unfolding resolve_child_launch_policy
  resolve_child_launch_policy-IsOffered parent cm cl max_depth fields policy h =
      >>=-elim (fork_of (get (entries_of fields) "forkContext")) _ policy h λ f _ h1.
        >>=-elim (check_depth parent max_depth) _ policy h1 λ depth d h2.
          >>=-elim (check_prompt (get (entries_of fields) "prompt")) _ policy h2 λ prompt _ h3.
            >>=-elim
              (guard (name_is_fit show (get (entries_of fields) "name")) PolicyError.invalid_name) _
              policy h3
              λ _ _ h4.
                >>=-elim (normalize_models (get (entries_of fields) "availableModels")) _ policy h4
                  λ available a h5.
                    >>=-elim (require_model (get (entries_of fields) "parentModel")) _ policy h5
                      λ reference _ h6.
                        >>=-elim
                          (or_throw (first (same_ref reference) available)
                            PolicyError.parent_unavailable)
                          _ policy h6
                          λ from p h7.
                            let (same, offered) =
                              rest-IsOffered parent cm cl (entries_of fields) available from depth
                                prompt f policy
                                (first-IsIn (same_ref reference) available from
                                  (or_throw-inv _ _ from p))
                                h7 in
                            (
                              subst (IsWithinDepth parent max_depth) (sym same)
                                  (check_depth-IsWithinDepth parent max_depth depth d),
                              (available, a, offered),
                            )
