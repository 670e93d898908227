-- ===== src/Optimize/Engine.antt =====
-- src/optimize/engine.rs (run_optimize): healthy code is proved and measured, its variants are
-- measured, and the winner is proved before it is promoted. Progress events are left out; JSON
-- and the markdown of src/report.rs are arguments.
pub mod Verified
use navin_engine.Prelude.{
  ℕ, zero, suc, ◌/◌, String, Bool, true, false, not, ◌&&◌, Option, none, some, List, [], ◌∷◌, ◌++◌,
  map, take, length, ltb, get_elem?, is_empty, if◌then◌else◌, Result, ok, err, Exec, pure, raise,
  ◌>>=◌, ◌>>◌, fmt, str, real,
}
use navin_engine.Prelude.Text.{concat, join, show}
use navin_engine.Prelude.Reals.{F64}
use navin_engine.System.{System, with_context, attempt, catch, gets, ensure, now_epoch}
use navin_engine.System.Path.{FilePath}
use navin_engine.Policy.{EvolveConfig}
use navin_engine.Diagnose.{Finding}
use navin_engine.Evolve.{debug_outcome, save_fix}
use navin_engine.Fix.Engine.{FixGenerator}
use navin_engine.Fix.Model.{FixCandidate, FixReport}
use navin_engine.Optimize.Judge.{
  p95_series, rps_series, MeasureVariantArgs, is_red, measure_variant,
}
use navin_engine.Optimize.Measure.{
  OptimizeContext, DiffMode, off, discover, Measurement, measure_patched, prove_patched,
}
use navin_engine.Optimize.Report.{
  OptimizeReport, OptimizeCodec, save, optimization_finding, or_zero, synthesized_fix_report,
}
use navin_engine.Optimize.Model.{slug, VariantOutcome, sample, aggregate, select_winner}
use navin_engine.Promote.Certificate.{Crypto, debug}
use navin_engine.Promote.Engine.{promote}
use navin_engine.Promote.Record.{PromotionRecord, Codec}
use navin_engine.Proof.{is_pass, ProofReport}
use navin_engine.Proof.Engine.{ProofPlan, for_profile, commit_of}
use navin_engine.Proof.Worker.{round1}
use navin_engine.Promote.Git.{is_repo}
use navin_engine.Runner.{Wire}
use navin_engine.Shadow.{Materials}
use navin_engine.Verify.Crawl.{Answer}
use navin_engine.Verify.Differential.{Fingerprint}

abbrev paths_of : Option (List Fingerprint) → List String
paths_of none = []
paths_of (some prints) = map (λ (p : Fingerprint). p.path) prints

abbrev diff_mode : ℕ → DiffMode
diff_mode zero = off
diff_mode (suc n) = discover (suc n)

module _ {W : Type 0} (fl : F64) (sys : System W) (wire : Wire W fl.Carrier)
    (load_config : FilePath → Exec W String EvolveConfig) (materials : Materials W)
    (fetch : String → ℕ → String → W → Option Answer × W) (codec : Codec)
    (stored : OptimizeCodec fl.Carrier) (crypto : Crypto) (ctx : OptimizeContext fl.Carrier)
    (root : FilePath) (config : EvolveConfig) where
  open fl use {Carrier, of_ℕ}

  -- What the variants are measured against, from the measurement of the code as it is.
  abbrev pub args_of : Measurement Carrier → MeasureVariantArgs Carrier
  args_of m = record {
    objective = ctx.objective;
    baseline = aggregate fl m.runs;
    base_p95 = sample fl (p95_series m.runs);
    base_rps = sample fl (rps_series m.runs);
    tests_before = m.tests_passed;
    invariants_before = m.invariants_ok;
    baseline_prints = m.fingerprints;
    diff_paths = paths_of m.fingerprints;
  }

  -- One variant after the other; every candidate is kept.
  unfoldable pub measure_all :
      MeasureVariantArgs Carrier
      → ℕ
      → List FixCandidate
      → Exec W String (List (VariantOutcome Carrier))
  measure_all args index [] = pure []
  measure_all args index (candidate ∷ candidates) = do
    v ←
        measure_variant fl sys wire load_config materials fetch ctx root args
          (concat ("opt-var-" ∷ show index ∷ [])) config.invariants candidate
    rest ← measure_all args (suc index) candidates
    pure (v ∷ rest)

  abbrev pub promoted :
      OptimizeReport Carrier → Result String PromotionRecord → OptimizeReport Carrier
  promoted report (ok r) = record report {
    promotion_id = some r.id;
    promotion_outcome = some (debug_outcome r.outcome);
    notes = report.notes ++ join "; " r.reasons ∷ [];
  }
  promoted report (err e) = record report {
    notes = report.notes ++ concat ("winner accepted but promotion failed: " ∷ e ∷ []) ∷ [];
  }

  -- The last steps of every way that returns.
  abbrev pub completed : OptimizeReport Carrier → Exec W String (OptimizeReport Carrier)
  completed report = do save fl sys wire stored ctx root report; pure report

  -- What the campaign knows of the code as it is.
  module _ (plan : ProofPlan Carrier) (proof : ProofReport Carrier)
      (base : Measurement Carrier) where
    abbrev pub is_verified : ProofReport Carrier → Bool
    is_verified p = is_pass p.verdict && not (ltb p.robustness_score proof.robustness_score)

    abbrev pub rejected : OptimizeReport Carrier → ProofReport Carrier → OptimizeReport Carrier
    rejected report p = record report {
      winner = none;
      winner_gain_percent = none;
      notes =
          report.notes
          ++ concat (
              "winner rejected at verification: proof "
              ∷ debug p.verdict
              ∷ " score "
              ∷ show p.robustness_score
              ∷ " (baseline "
              ∷ show proof.robustness_score
              ∷ ")"
              ∷ [])
            ∷ [];
    }

    -- Behind the proof of the winner.
    abbrev pub conclude :
        OptimizeReport Carrier
        → FixCandidate
        → VariantOutcome Carrier
        → ProofReport Carrier
        → Bool
        → Exec W String (OptimizeReport Carrier)
    conclude report winner v p false = completed (rejected report p)
    conclude report winner v p true = do
      now ← gets (now_epoch sys)
      let finding : Finding = optimization_finding fl sys wire stored ctx root report.baseline
      let fix_report : FixReport Carrier =
          synthesized_fix_report fl sys wire stored ctx root now finding.id winner report v
            p.robustness_score base.tests_passed base.invariants_ok
      attempt
          (save_fix fl sys wire load_config materials codec stored.evolve crypto root fix_report)
      done ← catch (
          promote sys codec crypto root fix_report winner (stored.evolve.candidate_json winner)
            config)
      completed (promoted report done)

    abbrev pub crowned :
        OptimizeReport Carrier → FixCandidate → VariantOutcome Carrier → OptimizeReport Carrier
    crowned report winner v = record report {
      winner = some winner.id;
      winner_gain_percent = some (or_zero fl sys wire stored ctx root v.gain);
    }

    -- `kept_candidates[index]` and `variants[index]`: an index out of range would panic.
    abbrev pub with_winner :
        OptimizeReport Carrier
        → Option FixCandidate
        → Option (VariantOutcome Carrier)
        → Exec W String (OptimizeReport Carrier)
    with_winner report (some winner) (some v) = do
      p ←
          prove_patched fl sys wire load_config materials fetch ctx root "opt-proof-win" plan
            (some winner.patch)
      conclude (crowned report winner v) winner v p (is_verified p)
    with_winner report _ _ = raise "index out of bounds"

    abbrev pub without_winner : OptimizeReport Carrier → OptimizeReport Carrier
    without_winner report = record report {
      notes =
          report.notes
          ++ wire.formats.print (
              fmt "no variant improved {} by at least {:.1}% beyond measurement noise"
                (str (slug ctx.objective) ∷ real ctx.min_gain_percent ∷ []))
            ∷ [];
    }

    abbrev pub select :
        OptimizeReport Carrier
        → List FixCandidate
        → Option ℕ
        → Exec W String (OptimizeReport Carrier)
    select report candidates none = completed (without_winner report)
    select report candidates (some index) =
        with_winner report (get_elem? candidates index) (get_elem? report.variants index)

    abbrev base_notes : List String
    base_notes =
        (if is_red base.tests_passed
          then "test suite already failing on the unmodified code" ∷ []
          else [])
        ++ (if is_red base.invariants_ok
            then concat (
                "business invariants already failing on the unmodified code: "
                ∷ join ", " base.invariant_failures
                ∷ [])
              ∷ []
            else [])

    abbrev variant_notes : String → List FixCandidate → List String
    variant_notes name candidates =
        if is_empty candidates
        then concat ("generator `" ∷ name ∷ "` proposed no variants" ∷ []) ∷ []
        else []

    abbrev pub report_of :
        String
        → String
        → String
        → List FixCandidate
        → List (VariantOutcome Carrier)
        → OptimizeReport Carrier
    report_of commit now name candidates variants = record {
      schema = "navin-optimize-run/v1";
      commit = commit;
      collected_at = now;
      objective = ctx.objective;
      baseline = aggregate fl base.runs;
      baseline_p95_std_ms = some (round1 fl sys wire (sample fl (p95_series base.runs)).std_dev);
      baseline_rps_std = some (round1 fl sys wire (sample fl (rps_series base.runs)).std_dev);
      bench_repeats = length base.runs;
      invariants_checked = length config.invariants;
      baseline_score = proof.robustness_score;
      variants = variants;
      winner = none;
      winner_gain_percent = none;
      promotion_id = none;
      promotion_outcome = none;
      notes = base_notes ++ variant_notes name candidates;
    }

    -- From the variants on.
    abbrev pub compete :
        String → FixGenerator W → List FixCandidate → Exec W String (OptimizeReport Carrier)
    compete commit generator candidates = do
      variants ← measure_all (args_of base) 0 candidates
      now ← gets (now_epoch sys)
      select (report_of commit now generator.name candidates variants) candidates
          (select_winner fl variants ctx.min_gain_percent)

  unfoldable pub run_optimize : FixGenerator W → Exec W String (OptimizeReport Carrier)
  unfolding for_profile optimization_finding
  run_optimize generator = do
    repo ← gets (is_repo sys root)
    commit ← commit_of fl sys wire load_config root repo
    let plan : ProofPlan Carrier = for_profile fl "quick" config.evolve.resources.max_memory_mb
    proof ←
        prove_patched fl sys wire load_config materials fetch ctx root "opt-proof-base" plan none
    ensure (is_pass proof.verdict) (
        concat (
          "the unmodified code failed its proof (score "
          ∷ show proof.robustness_score
          ∷ "); run `evolve` first, then optimize"
          ∷ []))
    base ←
        measure_patched fl sys wire load_config materials fetch ctx root "opt-base" none
          (diff_mode ctx.diff_vectors) config.invariants
    ensure (ltb 0 ((aggregate fl base.runs).requests))
        "baseline benchmark completed no requests; is the URL correct?"
    candidates ← with_context "generating optimization variants" (
        generator.propose
          (optimization_finding fl sys wire stored ctx root (aggregate fl base.runs)))
    compete plan proof base commit generator (take ctx.max_variants candidates)
