-- ===== src/Optimize/Judge/Eligible.antt =====
-- src/optimize/engine.rs (measure_variant): which variants may win.
use navin_engine.Prelude.{
  ◌≡◌, refl, ◌↔◌, arith, Bool, true, false, not, ◌&&◌, Option, none, some, List, Bool-cases, inl,
  inr,
}
use navin_engine.Prelude.Reals.{F64}
use navin_engine.System.{System}
use navin_engine.Fix.Model.{FixCandidate}
use navin_engine.Optimize.Judge.{
  MeasureVariantArgs, is_broken, error_ratio_regressed, measured_variant, judge_errors,
  judge_behavior, judge,
}
use navin_engine.Optimize.Measure.{Measurement}
use navin_engine.Optimize.Model.{LatencyStats, VariantOutcome, aggregate, error_ratio}
use navin_engine.Runner.{Wire}
use navin_engine.Verify.Differential.{Fingerprint, compare}
use navin_engine.Verify.Differential.Equivalent.{Agree, compare-equivalent_iff}

-- The same answers, where both were asked.
abbrev pub SameBehavior : Option (List Fingerprint) → Option (List Fingerprint) → Type 0
SameBehavior (some before) (some after) = Agree before after
SameBehavior _ _ = Unit

abbrev is_same : (F : Type 0) → Option (List Fingerprint) → Option (List Fingerprint) → Bool
is_same F (some before) (some after) = (compare {F = F} before after).equivalent
is_same F _ _ = true

is_same-SameBehavior :
    (F : Type 0) (before after : Option (List Fingerprint))
    → (is_same F before after ≡ true) ↔ SameBehavior before after
is_same-SameBehavior F none after = (λ h. tt, λ h. refl)
is_same-SameBehavior F (some before) none = (λ h. tt, λ h. refl)
is_same-SameBehavior F (some before) (some after) = compare-equivalent_iff F before after

-- A failure is none that this change brought: it was there before.
is_broken-Kept :
    (after before : Option Bool)
    → (is_broken after before ≡ false) ↔ (after ≡ some false → before ≡ some false)
is_broken-Kept none before = (λ h e. cc, λ h. refl)
is_broken-Kept (some true) before = (λ h e. absurd (ground (arith, e)), λ h. refl)
is_broken-Kept (some false) none = (λ h e. absurd (ground (arith, h)), λ h. let e = h refl in cc)
is_broken-Kept (some false) (some true) =
    (λ h e. absurd (ground (arith, h)), λ h. let e = h refl in absurd (ground (arith, e)))
is_broken-Kept (some false) (some false) = (λ h e. refl, λ h. refl)

module _ {W : Type 0} (fl : F64) (sys : System W) (wire : Wire W fl.Carrier)
    (args : MeasureVariantArgs fl.Carrier) (m : Measurement fl.Carrier) where
  -- What a variant must not have done, and what it must have kept.
  pub record Sound : Type 0 where
    pub tests : m.tests_passed ≡ some false → args.tests_before ≡ some false
    pub invariants : m.invariants_ok ≡ some false → args.invariants_before ≡ some false
    pub behavior : SameBehavior args.baseline_prints m.fingerprints
    pub errors :
        fl.lt
          (fl.add (error_ratio fl args.baseline) (fl.div (fl.of_ℕ 1) (fl.of_ℕ 100)))
          (error_ratio fl (aggregate fl m.runs))
        ≡ false

  judge_errors-eligible :
      (stats : LatencyStats fl.Carrier) (o : VariantOutcome fl.Carrier)
      → o.eligible ≡ false
      → (judge_errors fl sys wire args m stats o).eligible
        ≡ not (error_ratio_regressed fl sys wire args.baseline stats)
  judge_errors-eligible stats o h =
      elim (Bool-cases (error_ratio_regressed fl sys wire args.baseline stats)) [
        | inl r ↦ rw r h
        | inr r ↦ rw r refl
      ]

  judge_behavior-eligible :
      (stats : LatencyStats fl.Carrier) (o : VariantOutcome fl.Carrier)
      (before after : Option (List Fingerprint))
      → o.eligible ≡ false
      → (judge_behavior fl sys wire args m stats o before after).eligible ≡ (
          is_same fl.Carrier before after
          && not (error_ratio_regressed fl sys wire args.baseline stats))
  judge_behavior-eligible stats o none after h = judge_errors-eligible stats o h
  judge_behavior-eligible stats o (some before) none h = judge_errors-eligible stats o h
  judge_behavior-eligible stats o (some before) (some after) h =
      elim (Bool-cases (compare {F = fl.Carrier} before after).equivalent) [
        | inl r ↦
            rw r (judge_errors-eligible stats (record o { behavior_equivalent = some true }) h)
        | inr r ↦ rw r h
      ]

  judge-eligible :
      (candidate : FixCandidate)
      → (judge fl sys wire args candidate m).eligible ≡ (
          not (is_broken m.tests_passed args.tests_before)
          && (not (is_broken m.invariants_ok args.invariants_before)
              && (is_same fl.Carrier args.baseline_prints m.fingerprints
                  && not (error_ratio_regressed fl sys wire args.baseline (aggregate fl m.runs)))))
  unfolding judge
  judge-eligible candidate = elim (Bool-cases (is_broken m.tests_passed args.tests_before)) [
    | inl r ↦ rw r refl
    | inr r ↦ rw r (elim (Bool-cases (is_broken m.invariants_ok args.invariants_before)) [
      | inl i ↦ rw i refl
      | inr i ↦ rw i (
          judge_behavior-eligible (aggregate fl m.runs)
            (measured_variant fl sys wire args candidate m (aggregate fl m.runs))
            args.baseline_prints m.fingerprints refl)
    ])
  ]

  -- A variant that was measured is eligible exactly when it broke no suite of tests and no
  -- invariants that were not failing before, gave the answers of the baseline wherever both were
  -- asked, and does not fail more than one request in a hundred more than the baseline.
  pub judge-Sound :
      (candidate : FixCandidate) → ((judge fl sys wire args candidate m).eligible ≡ true) ↔ Sound
  judge-Sound candidate =
      let e = judge-eligible candidate in
      let s = is_same-SameBehavior fl.Carrier args.baseline_prints m.fingerprints in
      let t = is_broken-Kept m.tests_passed args.tests_before in
      let i = is_broken-Kept m.invariants_ok args.invariants_before in
      (
        λ h. record {
          tests = t.0 (ground (arith, e, h));
          invariants = i.0 (ground (arith, e, h));
          behavior = s.0 (ground (arith, e, h));
          errors = ground (arith, e, h);
        },
        λ (x : Sound).
            let b = s.1 x.behavior in
            let kept = t.1 x.tests in
            let held = i.1 x.invariants in ground (arith, e, b, kept, held, x.errors),
      )
