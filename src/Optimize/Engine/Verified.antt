-- ===== src/Optimize/Engine/Verified.antt =====
-- src/optimize/engine.rs (run_optimize): what a campaign that returns a report has done.
use navin_engine.Prelude.{
  ℕ, ◌≤◌, String, ◌≡◌, true, Option, none, some, List, length, get_elem?, Exec, Ran,
}
use navin_engine.Prelude.Reals.{F64}
use navin_engine.System.{System}
use navin_engine.System.Path.{FilePath}
use navin_engine.Policy.{EvolveConfig}
use navin_engine.Evolve.{debug_outcome}
use navin_engine.Fix.Model.{FixCandidate, FixPatch}
use navin_engine.Optimize.Report.{OptimizeReport, OptimizeCodec}
use navin_engine.Optimize.Engine.{promoted}
use navin_engine.Optimize.Measure.{OptimizeContext, prove_patched}
use navin_engine.Optimize.Model.{VariantOutcome, select_winner}
use navin_engine.Promote.Certificate.{Crypto}
use navin_engine.Promote.Record.{PromotionRecord, Codec}
use navin_engine.Promote.Engine.Guarded.{Authorised}
use navin_engine.Proof.{is_pass, ProofReport}
use navin_engine.Proof.Engine.{ProofPlan, for_profile}
use navin_engine.Runner.{Wire}
use navin_engine.Shadow.{Materials}
use navin_engine.Verify.Crawl.{Answer}

module _ {W : Type 0} (fl : F64) (sys : System W) (wire : Wire W fl.Carrier)
    (load_config : FilePath → Exec W String EvolveConfig) (materials : Materials W)
    (fetch : String → ℕ → String → W → Option Answer × W) (codec : Codec)
    (stored : OptimizeCodec fl.Carrier) (crypto : Crypto) (ctx : OptimizeContext fl.Carrier)
    (root : FilePath) (config : EvolveConfig) where
  open fl use {Carrier}

  abbrev quick : ProofPlan Carrier
  quick = for_profile fl "quick" config.evolve.resources.max_memory_mb

  abbrev proving : String → Option FixPatch → Exec W String (ProofReport Carrier)
  proving run_id patch =
      prove_patched fl sys wire load_config materials fetch ctx root run_id quick patch

  -- The code as it is was proved, and passed.
  pub record Healthy (score : ℕ) : Type 0 where
    pub proof : ProofReport Carrier
    pub ran : Ran (proving "opt-proof-base" none) proof
    pub passed : is_pass proof.verdict ≡ true
    pub scored : score ≡ proof.robustness_score

  -- The winner is the one that the measurements select, and its own proof passed, with no less
  -- than the score of the code as it is.
  pub record Won (variants : List (VariantOutcome Carrier)) (score : ℕ) (id : String) : Type 0 where
    pub index : ℕ
    pub outcome : VariantOutcome Carrier
    pub candidate : FixCandidate
    pub proof : ProofReport Carrier
    pub chosen : select_winner fl variants ctx.min_gain_percent ≡ some index
    pub measured : get_elem? variants index ≡ some outcome
    pub named : outcome.candidate_id ≡ id
    pub same : candidate.id ≡ id
    pub ran : Ran (proving "opt-proof-win" (some candidate.patch)) proof
    pub passed : is_pass proof.verdict ≡ true
    pub no_worse : score ≤ proof.robustness_score

  -- A promotion is that of the winner, and what its record says is permitted for the winner's
  -- family.
  pub record Promoted (winner : Option String) (said : String) : Type 0 where
    pub candidate : FixCandidate
    pub promotion : PromotionRecord
    pub named : winner ≡ some candidate.id
    pub says : said ≡ debug_outcome promotion.outcome
    pub authorised : Authorised config candidate.family promotion

  pub record Verified (r : OptimizeReport Carrier) : Type 0 where
    pub capped : length r.variants ≤ ctx.max_variants
    pub healthy : Healthy r.baseline_score
    pub won : (id : String) → r.winner ≡ some id → Won r.variants r.baseline_score id
    pub quiet : r.winner ≡ none → r.promotion_outcome ≡ none
    pub promoted : (said : String) → r.promotion_outcome ≡ some said → Promoted r.winner said

  -- A report that names no winner yet.
  record Open (r : OptimizeReport Carrier) : Type 0 where
    capped : length r.variants ≤ ctx.max_variants
    healthy : Healthy r.baseline_score
    unpromoted : r.promotion_outcome ≡ none
    unwon : r.winner ≡ none
