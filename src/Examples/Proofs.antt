-- ===== src/Examples/Proofs.antt =====
-- The report of a proof, the choice among three variants, and two lists of answers.
use navin_engine.Prelude.{
  Distinct, ℕ, String, ◌≡◌, ◌≢◌, ◌↔◌, ◌≤◌, arith, Bool, true, false, Option, none, some, List, [],
  ◌∷◌, All, fmt, map, get_elem?,
}
use navin_engine.Proof.{pass, weak, new_check, FaultOutcome, new_fault, build}
use navin_engine.Proof.Rollup.{Passed, build_score_iff, build_passes_iff}
use navin_engine.Optimize.Model.{VariantOutcome, select_winner}
use navin_engine.Optimize.Model.Winner.{Best, select_winner-Best}
use navin_engine.Diagnose as Diagnosing
use navin_engine.Diagnose.{Severity, high, low, medium_confidence, Finding}
use navin_engine.Diagnose.Ranked.{Ranked}
use navin_engine.Policy.{TargetSection}
use navin_engine.Baseline.{ProbeSpec, specs_for, percentile}
use navin_engine.Baseline.Probes.{specs_for-Distinct, percentile-sample}
use navin_engine.Verify.Differential.{Fingerprint, compare}
use navin_engine.Verify.Differential.Equivalent.{Agree, compare-equivalent_iff}
use navin_engine.Examples.Machine.{floats, order}

abbrev two_faults : List (FaultOutcome ℕ)
unfolding new_fault new_check
two_faults =
    new_fault "load" "load" (new_check "no_crash" pass (fmt "fine" []) ∷ [])
    ∷ new_fault "kill" "kill" (new_check "recovery" weak (fmt "slow" []) ∷ [])
    ∷ []

build_score_iff_example :
    ((build "epoch:7" "abc" "quick" "shadow" two_faults []).robustness_score ≤ 100)
    × ((build "epoch:7" "abc" "quick" "shadow" two_faults []).robustness_score ≡ 100 ↔ (
        (two_faults ≢ [])
        × ((build "epoch:7" "abc" "quick" "shadow" two_faults []).verdict ≡ pass)))
unfolding two_faults
build_score_iff_example =
    build_score_iff "epoch:7" "abc" "quick" "shadow" two_faults [] (ground arith)

build_passes_iff_example :
    ((build "epoch:7" "abc" "quick" "shadow" two_faults []).verdict ≡ pass) ↔ All Passed two_faults
build_passes_iff_example = build_passes_iff "epoch:7" "abc" "quick" "shadow" two_faults []

abbrev variant : String → Option ℕ → Bool → VariantOutcome ℕ
variant id gain eligible = record {
  candidate_id = id;
  rationale = "";
  stats = none;
  p95_std_ms = none;
  rps_std = none;
  tests_passed = none;
  invariants_ok = none;
  gain = gain;
  significance = none;
  behavior_equivalent = none;
  eligible = eligible;
  note = "";
  diff = none;
}

abbrev variants : List (VariantOutcome ℕ)
variants =
    variant "small" (some 8) true
    ∷ variant "big" (some 31) true
    ∷ variant "ineligible" (some 90) false
    ∷ []

select_winner-Best_example : Best floats 5 variants (select_winner floats variants 5)
select_winner-Best_example = select_winner-Best floats order 5 variants

abbrev answers : List Fingerprint
answers =
    record { path = "/"; status = 200; body_len = 5; body_hash = "a" }
    ∷ record { path = "/login"; status = 302; body_len = 0; body_hash = "b" }
    ∷ []

abbrev other_answers : List Fingerprint
other_answers =
    record { path = "/"; status = 200; body_len = 5; body_hash = "a" }
    ∷ record { path = "/login"; status = 500; body_len = 0; body_hash = "b" }
    ∷ []

compare-equivalent_iff_example :
    ((compare {F = ℕ} answers other_answers).equivalent ≡ true) ↔ Agree answers other_answers
compare-equivalent_iff_example = compare-equivalent_iff ℕ answers other_answers

abbrev finding : String → Severity → Finding
finding id severity = record {
  id = id;
  title = id;
  severity = severity;
  confidence = medium_confidence;
  related_fault = none;
  symptom = "";
  root_cause = "";
  remediation = "";
  family = "reliability";
  evidence = [];
}

abbrev three_findings : List Finding
three_findings = finding "a" low ∷ finding "b" high ∷ finding "c" low ∷ []

abbrev target : TargetSection
target = record {
  kind = "http";
  probe_paths = "login" ∷ "/" ∷ "/login" ∷ [];
  probe_headers = [];
  probe_method = "";
  probe_body = "";
  health_cmd = "";
  exercise_cmd = "";
}

specs_for-Distinct_example : Distinct (map (λ (s : ProbeSpec). s.path) (specs_for target ""))
specs_for-Distinct_example = specs_for-Distinct target ""

abbrev samples : List ℕ
samples = 3 ∷ 8 ∷ []

samples-ne-nil : samples ≢ []
samples-ne-nil = λ e. ground (arith, e)

percentile-sample_example : (i : ℕ) × (get_elem? samples i ≡ some (percentile floats samples 95))
percentile-sample_example = percentile-sample floats samples 95 samples-ne-nil
