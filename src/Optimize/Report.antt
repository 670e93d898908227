-- ===== src/Optimize/Report.antt =====
-- src/optimize/model.rs (OptimizeReport) and src/optimize/engine.rs: the report of a campaign, the
-- finding that asks for variants, and the winner in the shape of a fix.
use navin_engine.Prelude.{
  ℕ, ◌/◌, String, Bool, true, Option, none, some, List, [], ◌∷◌, ◌++◌, length, Exec, ◌>>◌, fmt, num,
  str, real,
}
use navin_engine.Prelude.Text.{concat}
use navin_engine.Prelude.Reals.{F64}
use navin_engine.System.{System, with_context}
use navin_engine.System.Path.{FilePath, display}
use navin_engine.Diagnose.{Finding, info, high_confidence}
use navin_engine.Evolve.{EvolveCodec}
use navin_engine.Fix.Model.{FixCandidate, Comparison, accept, said, GateResult, FixReport}
use navin_engine.Optimize.Measure.{OptimizeContext}
use navin_engine.Optimize.Model.{Objective, slug, LatencyStats, VariantOutcome}
use navin_engine.Proof.{pass}
use navin_engine.Runner.{Wire}

pub record OptimizeReport (F : Type 0) : Type 0 where
  pub schema : String
  pub commit : String
  pub collected_at : String
  pub objective : Objective
  pub baseline : LatencyStats F
  pub baseline_p95_std_ms : Option F
  pub baseline_rps_std : Option F
  pub bench_repeats : ℕ
  pub invariants_checked : ℕ
  pub baseline_score : ℕ  -- u8
  pub variants : List (VariantOutcome F)
  pub winner : Option String
  pub winner_gain_percent : Option F
  pub promotion_id : Option String
  pub promotion_outcome : Option String
  pub notes : List String

-- The texts of what is stored.
pub record OptimizeCodec (F : Type 0) : Type 0 where
  pub stats_json : LatencyStats F → String
  pub report_json : OptimizeReport F → String
  pub report_markdown : OptimizeReport F → String
  pub evolve : EvolveCodec F

module _ {W : Type 0} (fl : F64) (sys : System W) (wire : Wire W fl.Carrier)
    (stored : OptimizeCodec fl.Carrier) (ctx : OptimizeContext fl.Carrier) (root : FilePath) where
  open fl use {Carrier, of_ℕ}

  -- `OptimizeReport::save`, with its markdown beside it
  abbrev pub save : OptimizeReport Carrier → Exec W String Unit
  save report = do
    let dir : FilePath = root ++ ".navin" ∷ "optimize" ∷ []
    let path : FilePath = dir ++ concat (report.commit ∷ ".json" ∷ []) ∷ []
    let sidecar : FilePath = dir ++ concat (report.commit ∷ ".md" ∷ []) ∷ []
    with_context (concat ("cannot create " ∷ display dir ∷ [])) (sys.create_dir_all dir)
    with_context (concat ("cannot write " ∷ display path ∷ []))
        (sys.write path (stored.report_json report))
    with_context (concat ("cannot write " ∷ display sidecar ∷ []))
        (sys.write sidecar (stored.report_markdown report))

  unfoldable pub optimization_finding : LatencyStats Carrier → Finding
  optimization_finding baseline = record {
    id = concat ("optimize." ∷ slug ctx.objective ∷ []);
    title = "Measured performance headroom search";
    severity = info;
    confidence = high_confidence;
    related_fault = none;
    symptom = wire.formats.print (
        fmt "baseline: P95 {:.1} ms, P50 {:.1} ms, {:.1} RPS over {}s at concurrency {}" (
          real baseline.p95_ms
          ∷ real baseline.p50_ms
          ∷ real baseline.rps
          ∷ num (ctx.bench_duration / 1000)
          ∷ num ctx.bench_concurrency
          ∷ []));
    root_cause = "not a failure: the engine is searching for measurable performance headroom";
    remediation = concat (
        "propose independent variants that improve "
        ∷ slug ctx.objective
        ∷ " without changing externally visible behaviour (routes, responses, CLI); the test suite must stay green; each variant is benchmarked in isolation and only the measured winner is kept"
        ∷ []);
    family = "performance";
    evidence = stored.stats_json baseline ∷ [];
  }

  abbrev p95_of : Option (LatencyStats Carrier) → Option Carrier
  p95_of none = none
  p95_of (some stats) = some stats.p95_ms

  abbrev pub or_zero : Option Carrier → Carrier
  or_zero none = of_ℕ 0
  or_zero (some gain) = gain

  abbrev comparison_of :
      OptimizeReport Carrier
      → VariantOutcome Carrier
      → ℕ
      → Option Bool
      → Option Bool
      → Comparison Carrier
  comparison_of report v score_after tests_before invariants_before = record {
    score_before = report.baseline_score;
    score_after = score_after;
    verdict_before = pass;
    verdict_after = pass;
    resolved_target = true;
    new_high_findings = [];
    p95_before_ms = some report.baseline.p95_ms;
    p95_after_ms = p95_of v.stats;
    tests_before = tests_before;
    tests_after = v.tests_passed;
    invariants_before = invariants_before;
    invariants_after = v.invariants_ok;
  }

  abbrev winner_gate : OptimizeReport Carrier → VariantOutcome Carrier → GateResult Carrier
  winner_gate report v = record {
    decision = accept;
    reasons =
        said (
          fmt "optimize: measured winner, {} improved {:.1}% ({} variants compared)" (
            str (slug report.objective)
            ∷ real (or_zero v.gain)
            ∷ num (length report.variants)
            ∷ []))
        ∷ [];
  }

  -- The winner in the shape of a fix.
  unfoldable pub synthesized_fix_report :
      String
      → String
      → FixCandidate
      → OptimizeReport Carrier
      → VariantOutcome Carrier
      → ℕ
      → Option Bool
      → Option Bool
      → FixReport Carrier
  synthesized_fix_report now finding_id winner report v score_after tests_before invariants_before =
      record {
        schema = "navin-fix/v1";
        commit = report.commit;
        collected_at = now;
        target_finding = finding_id;
        score_before = report.baseline_score;
        verdict_before = pass;
        attempts =
            record {
              candidate_id = winner.id;
              target_finding = finding_id;
              rationale = winner.rationale;
              comparison = comparison_of report v score_after tests_before invariants_before;
              gate = winner_gate report v;
              after_findings = [];
              apply_error = none;
              diff = v.diff;
            }
            ∷ [];
        accepted = some winner.id;
        proposal_path = none;
        notes = "synthesized by the optimize engine" ∷ [];
      }
