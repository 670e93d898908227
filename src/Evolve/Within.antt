-- ===== src/Evolve/Within.antt =====
-- src/evolve/engine.rs: what a run of the pipeline may do.
use navin_engine.Prelude.{
  ℕ, ◌≤◌, ◌+◌, min, String, ◌≡◌, refl, ap, true, false, none, some, List, [], ◌∷◌, ◌++◌, map,
  filter, length, take, Bool, Ran, All, Exec, str_eq,
}
use navin_engine.Prelude.Reals.{F64}
use navin_engine.System.{System}
use navin_engine.System.Path.{FilePath}
use navin_engine.Policy.{EvolveConfig}
use navin_engine.Diagnose.{Severity, critical, high, medium, low, info, Finding, Diagnosis}
use navin_engine.Diagnose.Engine.{diagnose_project}
use navin_engine.Proof.{ProofReport}
use navin_engine.Proof.Engine.{for_profile, run_proof_in_shadow}
use navin_engine.Fix.Engine.{FixGenerator}
use navin_engine.Fix.Prove.{FixContext}
use navin_engine.Promote.Certificate.{Crypto}
use navin_engine.Promote.Policy.Laws.{MayMerge}
use navin_engine.Promote.Record.{PromotionOutcome, blocked, branch_only, merged, Codec}
use navin_engine.Runner.{Wire}
use navin_engine.Shadow.{Materials}
use navin_engine.Evolve.{EvolveContext, FindingOutcome, EvolveReport, EvolveCodec, debug_outcome}

-- An outcome that says Merged is one that the policy let through; nothing was promoted where no
-- fix was accepted.
pub record Permitted (config : EvolveConfig) (o : FindingOutcome) : Type 0 where
  pub quiet : o.fix_accepted ≡ false → o.promotion_outcome ≡ none
  pub merged :
      o.promotion_outcome ≡ some "Merged" → (config.evolve.enabled ≡ true) × MayMerge config

-- One outcome for each target, in their order; as many addressed as fixes were accepted; no more
-- than the budget of the run; and nothing promoted that the policy forbids.
-- Critical and high findings are to be addressed.
abbrev pub is_grave : Severity → Bool
is_grave critical = true
is_grave high = true
is_grave medium = false
is_grave low = false
is_grave info = false

-- The grave findings of a list, in its order, at most so many.
abbrev pub to_address : EvolveContext → EvolveConfig → List Finding → List Finding
to_address ctx config found =
    take (min ctx.max_findings config.evolve.budget.max_candidates)
      (filter (λ (f : Finding). is_grave f.severity) found)

pub record Within (ctx : EvolveContext) (config : EvolveConfig) (found : List Finding)
    (r : EvolveReport) : Type 0 where
  pub total : r.findings_total ≡ length found
  pub ordered :
      map (λ (o : FindingOutcome). o.finding_id) r.outcomes
      ≡ map (λ (f : Finding). f.id) (to_address ctx config found)
  pub counted :
      r.findings_addressed ≡ length (filter (λ (o : FindingOutcome). o.fix_accepted) r.outcomes)
  pub bounded : length r.outcomes ≤ min ctx.max_findings config.evolve.budget.max_candidates
  pub permitted : All (Permitted config) r.outcomes

pub debug_outcome-merged : (o : PromotionOutcome) → debug_outcome o ≡ "Merged" → o ≡ merged
debug_outcome-merged blocked h = let e = ap (λ s. str_eq s "Merged") h in absurd (cc)
debug_outcome-merged branch_only h = let e = ap (λ s. str_eq s "Merged") h in absurd (cc)
debug_outcome-merged merged h = refl

abbrev ids : List FindingOutcome → List String
ids os = map (λ (o : FindingOutcome). o.finding_id) os

abbrev accepted_in : List FindingOutcome → ℕ
accepted_in os = length (filter (λ (o : FindingOutcome). o.fix_accepted) os)

module _ {W : Type 0} (fl : F64) (sys : System W) (wire : Wire W fl.Carrier)
    (load_config : FilePath → Exec W String EvolveConfig) (materials : Materials W) (codec : Codec)
    (stored : EvolveCodec fl.Carrier) (crypto : Crypto) (root : FilePath)
    (config : EvolveConfig) where
  -- The outcome of one finding, and the count with it.
  record Settled (id : String) (n : ℕ) (p : FindingOutcome × ℕ) : Type 0 where
    named : p.0.finding_id ≡ id
    counted : p.1 ≡ n + accepted_in (p.0 ∷ [])
    permitted : Permitted config p.0

  -- A promotion of an accepted fix: it stays that finding's, accepted, and permitted.
  record Carried (o p : FindingOutcome) : Type 0 where
    named : p.finding_id ≡ o.finding_id
    accepted : p.fix_accepted ≡ true
    permitted : Permitted config p

  module _ (ctx : FixContext fl.Carrier) (generator : FixGenerator W) where
    -- What the loop has done of its list so far.
    record Looped (before : List FindingOutcome) (fs : List Finding) (p : List FindingOutcome × ℕ)
        : Type 0 where
      ordered : ids p.0 ≡ ids before ++ map (λ (f : Finding). f.id) fs
      counted : p.1 ≡ accepted_in p.0
      permitted : All (Permitted config) p.0

  -- The diagnosis that the run made, of the proof that it ran.
  pub record Diagnosed (ctx : EvolveContext) (diagnosis : Diagnosis) : Type 0 where
    pub proof : ProofReport fl.Carrier
    pub proved :
        Ran
          (run_proof_in_shadow fl sys wire load_config materials root "evolve-proof" ctx.start_cmd
            ctx.url
            (for_profile fl ctx.profile config.evolve.resources.max_memory_mb)
            ctx.ready_timeout
            ctx.limits
            false)
          proof
    pub diagnosed : Ran (diagnose_project fl wire.formats sys load_config root proof) diagnosis
