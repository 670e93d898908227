-- ===== src/Optimize/Judge.antt =====
-- src/optimize/engine.rs (measure_variant) and the series of src/optimize/stats.rs: a variant is
-- measured like the baseline was, and ineligible for the first reason that stands against it.
pub mod Eligible
pub mod Named
use navin_engine.Prelude.{
  ℕ, String, Bool, true, false, not, ◌&&◌, Option, none, some, List, [], ◌∷◌, map, length, leb,
  if◌then◌else◌, Result, ok, err, Exec, pure, ◌>>=◌, Message, fmt, num, str, real,
}
use navin_engine.Prelude.Text.{concat, join}
use navin_engine.Prelude.Reals.{F64}
use navin_engine.System.{System, catch}
use navin_engine.System.Path.{FilePath}
use navin_engine.Policy.{InvariantSpec, EvolveConfig}
use navin_engine.Fix.Model.{FixCandidate}
use navin_engine.Optimize.Measure.{
  OptimizeContext, DiffMode, off, replay, Measurement, measure_patched,
}
use navin_engine.Optimize.Model.{
  Objective, p95, throughput, LatencyStats, Sample, VariantOutcome, gain_percent, error_ratio,
  sample, significant, aggregate,
}
use navin_engine.Proof.Worker.{round1}
use navin_engine.Runner.{Wire}
use navin_engine.Shadow.{Materials}
use navin_engine.Verify.Crawl.{Answer}
use navin_engine.Verify.Differential.{Fingerprint, DiffOutcome, compare}

abbrev pub p95_series : {F : Type 0} → List (LatencyStats F) → List F
p95_series {F} runs = map (λ (r : LatencyStats F). r.p95_ms) runs

abbrev pub rps_series : {F : Type 0} → List (LatencyStats F) → List F
rps_series {F} runs = map (λ (r : LatencyStats F). r.rps) runs

-- What the variants are measured against.
pub record MeasureVariantArgs (F : Type 0) : Type 0 where
  pub objective : Objective
  pub baseline : LatencyStats F
  pub base_p95 : Sample F
  pub base_rps : Sample F
  pub tests_before : Option Bool
  pub invariants_before : Option Bool
  pub baseline_prints : Option (List Fingerprint)
  pub diff_paths : List String

-- `== Some(false)`
abbrev pub is_red : Option Bool → Bool
is_red (some false) = true
is_red _ = false

-- `after == Some(false) && before != Some(false)`
abbrev pub is_broken : Option Bool → Option Bool → Bool
is_broken after before = is_red after && not (is_red before)

abbrev pub diff_mode : {F : Type 0} → MeasureVariantArgs F → Option (List Fingerprint) → DiffMode
diff_mode args none = off
diff_mode args (some prints) = replay args.diff_paths

abbrev pub new_variant : {F : Type 0} → FixCandidate → VariantOutcome F
new_variant candidate = record {
  candidate_id = candidate.id;
  rationale = candidate.rationale;
  stats = none;
  p95_std_ms = none;
  rps_std = none;
  tests_passed = none;
  invariants_ok = none;
  gain = none;
  significance = none;
  behavior_equivalent = none;
  eligible = false;
  note = "";
  diff = none;
}

module _ {W : Type 0} (fl : F64) (sys : System W) (wire : Wire W fl.Carrier) where
  open fl use {Carrier, lt, add, mul, div, of_ℕ}

  abbrev significance_of :
      MeasureVariantArgs Carrier → List (LatencyStats Carrier) → Objective → Bool
  significance_of args runs p95 = significant fl args.base_p95 (sample fl (p95_series runs))
  significance_of args runs throughput = significant fl args.base_rps (sample fl (rps_series runs))

  -- Everything measured, before the variant is judged.
  abbrev pub measured_variant :
      MeasureVariantArgs Carrier
      → FixCandidate
      → Measurement Carrier
      → LatencyStats Carrier
      → VariantOutcome Carrier
  measured_variant args candidate m stats = record {
    candidate_id = candidate.id;
    rationale = candidate.rationale;
    stats = some stats;
    p95_std_ms = some (round1 fl sys wire (sample fl (p95_series m.runs)).std_dev);
    rps_std = some (round1 fl sys wire (sample fl (rps_series m.runs)).std_dev);
    tests_passed = m.tests_passed;
    invariants_ok = m.invariants_ok;
    gain = some (round1 fl sys wire (gain_percent fl args.objective args.baseline stats));
    significance =
        if leb 2 (length m.runs) then some (significance_of args m.runs args.objective) else none;
    behavior_equivalent = none;
    eligible = false;
    note = "";
    diff = m.code_diff;
  }

  abbrev pub error_ratio_regressed : LatencyStats Carrier → LatencyStats Carrier → Bool
  error_ratio_regressed baseline stats =
      lt (add (error_ratio fl baseline) (div (of_ℕ 1) (of_ℕ 100))) (error_ratio fl stats)

  abbrev percent_of : LatencyStats Carrier → Carrier
  percent_of stats = mul (error_ratio fl stats) (of_ℕ 100)

  abbrev noise_note : Option Bool → String
  noise_note significance = if is_red significance then "; gain within measurement noise" else ""

  abbrev measured_note :
      Measurement Carrier → LatencyStats Carrier → VariantOutcome Carrier → Message Carrier
  measured_note m stats o = fmt "P95 {:.1} ± {:.1} ms, {:.1} ± {:.1} RPS over {} windows{}" (
      real stats.p95_ms
      ∷ real (sample fl (p95_series m.runs)).std_dev
      ∷ real stats.rps
      ∷ real (sample fl (rps_series m.runs)).std_dev
      ∷ num (length m.runs)
      ∷ str (noise_note o.significance)
      ∷ [])

  -- The last check, and the acceptance.
  abbrev pub judge_errors :
      MeasureVariantArgs Carrier
      → Measurement Carrier
      → LatencyStats Carrier
      → VariantOutcome Carrier
      → VariantOutcome Carrier
  judge_errors args m stats o =
      if error_ratio_regressed args.baseline stats
      then record o {
        note = wire.formats.print (
            fmt "error ratio regressed ({:.2}% -> {:.2}%)"
              (real (percent_of args.baseline) ∷ real (percent_of stats) ∷ []));
      }
      else record o { note = wire.formats.print (measured_note m stats o); eligible = true }

  abbrev diverged_note : DiffOutcome Carrier → String
  diverged_note diff = wire.formats.print (
      fmt "behaviour diverged on {}/{} vectors: {}" (
        num (length diff.divergences)
        ∷ num diff.vectors
        ∷ str (join "; " (map wire.formats.print diff.divergences))
        ∷ []))

  -- From the behaviour on; the check needs the answers of both.
  abbrev pub judge_behavior :
      MeasureVariantArgs Carrier
      → Measurement Carrier
      → LatencyStats Carrier
      → VariantOutcome Carrier
      → Option (List Fingerprint)
      → Option (List Fingerprint)
      → VariantOutcome Carrier
  judge_behavior args m stats o none after = judge_errors args m stats o
  judge_behavior args m stats o (some before) none = judge_errors args m stats o
  judge_behavior args m stats o (some before) (some after) =
      let diff : DiffOutcome Carrier = compare before after in
      let judged : VariantOutcome Carrier = record o {
        behavior_equivalent = some diff.equivalent;
      } in
      if not diff.equivalent
      then record judged { note = diverged_note diff }
      else judge_errors args m stats judged

  unfoldable pub judge :
      MeasureVariantArgs Carrier → FixCandidate → Measurement Carrier → VariantOutcome Carrier
  judge args candidate m =
      let stats : LatencyStats Carrier = aggregate fl m.runs in
      let o : VariantOutcome Carrier = measured_variant args candidate m stats in
      if is_broken m.tests_passed args.tests_before
      then record o { note = "project test suite fails with this variant" }
      else if is_broken m.invariants_ok args.invariants_before
      then record o {
        note =
            concat (
              "business invariants fail with this variant: " ∷ join ", " m.invariant_failures ∷ []);
      }
      else judge_behavior args m stats o args.baseline_prints m.fingerprints

  unfoldable pub judged :
      MeasureVariantArgs Carrier
      → FixCandidate
      → Result String (Measurement Carrier)
      → VariantOutcome Carrier
  unfolding judge
  judged args candidate (ok m) = judge args candidate m
  judged args candidate (err e) = record (new_variant candidate) {
    note = concat ("measurement failed: " ∷ e ∷ []);
  }

  module _ (load_config : FilePath → Exec W String EvolveConfig) (materials : Materials W)
      (fetch : String → ℕ → String → W → Option Answer × W) (ctx : OptimizeContext Carrier)
      (root : FilePath) where
    unfoldable pub measure_variant :
        MeasureVariantArgs Carrier
        → String
        → List InvariantSpec
        → FixCandidate
        → Exec W String (VariantOutcome Carrier)
    unfolding judged
    measure_variant args run_id invariants candidate = do
      m ← catch (
          measure_patched fl sys wire load_config materials fetch ctx root run_id
            (some candidate.patch) (diff_mode args args.baseline_prints) invariants)
      pure (judged args candidate m)
