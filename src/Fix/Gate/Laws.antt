-- ===== src/Fix/Gate/Laws.antt =====
-- What the gate accepts: each check of src/fix/gate.rs keeps the case against a candidate empty
-- exactly under its own condition, and `evaluate` accepts exactly where all of them do.
use navin_engine.Prelude.{
  ◌≤◌, ◌≡◌, refl, ◌↔◌, Bool, true, false, not, ◌&&◌, ◌||◌, Option, none, some, List, [], ◌∷◌, ◌++◌,
  ltb, is_empty, arith, Message,
}
use navin_engine.Prelude.Reals.{F64}
use navin_engine.Fix.Model.{Comparison, accept}
use navin_engine.Fix.Gate.{
  GateConfig, Tally, check_suite, check_target, check_score, check_findings, latency, tally,
  evaluate,
}

-- Nothing counts against the candidate.
abbrev clear : {F : Type 0} → Tally F → Bool
clear t = is_empty t.against

is_empty-snoc {ℓ} : {A : Type ℓ} (xs : List A) (x : A) → is_empty (xs ++ x ∷ []) ≡ false
is_empty-snoc [] x = refl
is_empty-snoc (y ∷ xs) x = refl

-- A suite that fails after the patch and did not fail before it.
abbrev suite_ok : Option Bool → Option Bool → Bool
suite_ok _ (some true) = true
suite_ok (some false) (some false) = true
suite_ok _ (some false) = false
suite_ok _ none = true

clear-check_suite :
    {F : Type 0} (p a b : Message F) (before after : Option Bool) (t : Tally F)
    → clear (check_suite p a b before after t) ≡ (clear t && suite_ok before after)
clear-check_suite p a b before after t = ground (arith, is_empty-snoc t.against b)

module _ (fl : F64) where
  open fl use {Carrier, lt, add, mul, of_ℕ}

  module _ (cmp : Comparison Carrier) (cfg : GateConfig Carrier) (t : Tally Carrier) where
    clear-check_target :
        clear (check_target fl cmp cfg t)
        ≡ (clear t && (not cfg.require_target_resolved || cmp.resolved_target))
    unfolding check_target
    clear-check_target = ground arith

    clear-check_score :
        clear (check_score fl cmp t) ≡ (clear t && not (ltb cmp.score_after cmp.score_before))
    unfolding check_score
    clear-check_score = ground arith

    clear-check_findings :
        clear (check_findings fl cmp t) ≡ (clear t && is_empty cmp.new_high_findings)
    unfolding check_findings
    clear-check_findings = ground arith

  -- P95 is over the tolerated ceiling.
  abbrev regressed : Option Carrier → Option Carrier → Carrier → Bool
  regressed (some before) (some after) tolerance =
      lt (of_ℕ 0) before && lt (mul before (add (of_ℕ 1) tolerance)) after
  regressed (some before) none tolerance = false
  regressed none _ tolerance = false

  clear-latency :
      (before after : Option Carrier) (cfg : GateConfig Carrier) (t : Tally Carrier)
      → clear (latency fl before after cfg t)
        ≡ (clear t && not (regressed before after cfg.latency_regression_tolerance))
  clear-latency before after cfg t = ground arith

  module _ (cmp : Comparison Carrier) (cfg : GateConfig Carrier) where
    clear-tally : clear (tally fl cmp cfg) ≡ (
        (((((not cfg.require_target_resolved || cmp.resolved_target)
                && not (ltb cmp.score_after cmp.score_before))
              && is_empty cmp.new_high_findings)
            && suite_ok cmp.tests_before cmp.tests_after)
          && suite_ok cmp.invariants_before cmp.invariants_after)
        && not (regressed cmp.p95_before_ms cmp.p95_after_ms cfg.latency_regression_tolerance))
    unfolding tally
    clear-tally = simp (
      clear-latency, clear-check_suite, clear-check_findings, clear-check_score, clear-check_target,
    )

-- What the documentation of the gate asks of a candidate.
module _ (fl : F64) where
  open fl use {Carrier, lt, add, mul, of_ℕ}

  pub record Helped (cmp : Comparison Carrier) (cfg : GateConfig Carrier) : Type 0 where
    pub target : cfg.require_target_resolved ≡ true → cmp.resolved_target ≡ true
    pub robustness : cmp.score_before ≤ cmp.score_after
    pub no_new_findings : cmp.new_high_findings ≡ []
    pub tests : cmp.tests_after ≡ some false → cmp.tests_before ≡ some false
    pub invariants : cmp.invariants_after ≡ some false → cmp.invariants_before ≡ some false
    pub latency :
        (before after : Carrier)
        → cmp.p95_before_ms ≡ some before
        → cmp.p95_after_ms ≡ some after
        → lt (of_ℕ 0) before ≡ true
        → lt (mul before (add (of_ℕ 1) cfg.latency_regression_tolerance)) after ≡ false

  suite_ok_iff :
      (before after : Option Bool)
      → (suite_ok before after ≡ true) ↔ (after ≡ some false → before ≡ some false)
  suite_ok_iff before after = ground arith

  regressed_iff :
      (before after : Option Carrier) (tolerance : Carrier)
      → (regressed fl before after tolerance ≡ false) ↔ (
          (b a : Carrier)
          → before ≡ some b
          → after ≡ some a
          → lt (of_ℕ 0) b ≡ true
          → lt (mul b (add (of_ℕ 1) tolerance)) a ≡ false)
  regressed_iff (some b) (some a) tolerance =
      (λ h b' a' p q r. ground arith, λ h. ground (arith, h b a refl refl))
  regressed_iff (some b) none tolerance = (λ h b' a' p q r. ground arith, λ h. refl)
  regressed_iff none after tolerance = (λ h b' a' p q r. ground arith, λ h. refl)

  module _ (cmp : Comparison Carrier) (cfg : GateConfig Carrier) where
    clear_iff : ((evaluate fl cmp cfg).decision ≡ accept) ↔ (clear (tally fl cmp cfg) ≡ true)
    unfolding evaluate
    clear_iff = ground arith

    Helped-of_clear : clear (tally fl cmp cfg) ≡ true → Helped cmp cfg
    Helped-of_clear h =
        let parts = (rw (clear-tally fl cmp cfg) at h) in
        record {
          target = λ r. ground arith;
          robustness = ground arith;
          no_new_findings = ground arith;
          tests = (suite_ok_iff cmp.tests_before cmp.tests_after).0 (ground arith);
          invariants = (suite_ok_iff cmp.invariants_before cmp.invariants_after).0 (ground arith);
          latency =
              (regressed_iff cmp.p95_before_ms cmp.p95_after_ms cfg.latency_regression_tolerance).0
                (ground arith);
        }

    clear-of_Helped : Helped cmp cfg → clear (tally fl cmp cfg) ≡ true
    clear-of_Helped h = rw (clear-tally fl cmp cfg) (
        ground (
          arith,
          (suite_ok_iff cmp.tests_before cmp.tests_after).1 h.tests,
          (suite_ok_iff cmp.invariants_before cmp.invariants_after).1 h.invariants,
          (regressed_iff cmp.p95_before_ms cmp.p95_after_ms cfg.latency_regression_tolerance).1
              h.latency,
        ))

    -- The gate accepts a candidate exactly when it helped: the target is resolved (if that is
    -- required), the score did not drop, there is no serious finding on the list, no green suite
    -- or invariant turned red, and P95 is under the tolerated ceiling.
    pub evaluate-accepts_iff : ((evaluate fl cmp cfg).decision ≡ accept) ↔ Helped cmp cfg
    evaluate-accepts_iff =
        (λ h. Helped-of_clear (clear_iff.0 h), λ h. clear_iff.1 (clear-of_Helped h))
