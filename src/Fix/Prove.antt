-- ===== src/Fix/Prove.antt =====
-- src/fix/engine.rs: the evidence on which a campaign judges. A shadow is made, patched, tested,
-- proved and destroyed, and the proof is diagnosed; the P95 is read back from its report.
pub mod Gone
pub mod ReadBack
use navin_engine.Prelude.{
  ℕ, String, Bool, true, false, Option, none, some, List, [], ◌∷◌, ◌++◌, find, is_empty, str_eq,
  if◌then◌else◌, Result, ok, err, Exec, pure, raise, ◌>>=◌, ◌>>◌,
}
use navin_engine.Prelude.Text.{join}
use navin_engine.Prelude.Reals.{F64}
use navin_engine.System.{
  System, with_context, attempt, catch, gets, command_ok, engine_dir, now_epoch,
}
use navin_engine.System.Path.{FilePath}
use navin_engine.Policy.{InvariantSpec, EvolveConfig}
use navin_engine.Proof.{FaultOutcome, ProofReport}
use navin_engine.Proof.Engine.{ProofPlan, run_proof, proof_log}
use navin_engine.Diagnose.{Diagnosis}
use navin_engine.Diagnose.Symptoms.{parse_metric}
use navin_engine.Diagnose.Engine.{diagnose, text_or_empty}
use navin_engine.Fix.Model.{FixPatch, FixCandidate}
use navin_engine.Fix.Patch.{apply}
use navin_engine.Fix.Diff.{capture}
use navin_engine.Fix.Engine.{Evidence, Campaign}
use navin_engine.Runner.{SandboxLimits, Wire}
use navin_engine.Shadow.{Shadow, Materials, create, guarded}
use navin_engine.Verify.Invariants.{InvariantOutcome, run_invariants}

pub record FixContext (F : Type 0) : Type 0 where
  pub start_cmd : String
  pub url : String
  pub plan : ProofPlan F
  pub ready_timeout : ℕ
  pub limits : Option SandboxLimits
  pub test_cmd : Option String
  pub invariants : List InvariantSpec

-- What the work in the shadow brings home.
pub record Gathered (F : Type 0) : Type 0 where
  pub code_diff : Option String
  pub tests_passed : Option Bool
  pub invariants_ok : Option Bool
  pub report : Result String (ProofReport F)
  pub log_text : Option String

module _ {W : Type 0} (fl : F64) (sys : System W) (wire : Wire W fl.Carrier)
    (load_config : FilePath → Exec W String EvolveConfig) (materials : Materials W) where
  open fl use {Carrier}

  abbrev pub is_load : FaultOutcome Carrier → Bool
  is_load f = str_eq f.fault "load"

  abbrev p95_of : Option (FaultOutcome Carrier) → Option Carrier
  p95_of none = none
  p95_of (some load) =
      parse_metric fl wire.formats (wire.formats.to_lowercase (join " " load.evidence)) "p95"

  unfoldable pub load_p95 : ProofReport Carrier → Option Carrier
  load_p95 report = p95_of (find is_load report.faults)

  module _ (ctx : FixContext Carrier) (root : FilePath) where
    -- Seconds, for one run of the tests
    abbrev test_deadline : ℕ
    test_deadline = 600

    unfoldable pub run_test_suite : String → FilePath → Exec W String Bool
    run_test_suite cmd work_dir =
        command_ok sys cmd work_dir (engine_dir root ++ "logs" ∷ "fix-tests.log" ∷ []) test_deadline

    abbrev patched : Option FixPatch → FilePath → Exec W String (Option String)
    patched none path = pure none
    patched (some patch) path = do
      with_context "applying candidate patch to the shadow" (apply sys patch path)
      capture sys path

    abbrev tested : Option String → FilePath → Exec W String (Option Bool)
    tested none path = pure none
    tested (some cmd) path = do passed ← run_test_suite cmd path; pure (some passed)

    abbrev invariants_in : FilePath → Bool → Exec W String (Option Bool)
    invariants_in path true = pure none
    invariants_in path false = do
      outcome ← run_invariants sys path root ctx.invariants
      pure (some outcome.passed)

    -- Everything between the making of the shadow and its end.
    unfoldable pub gather_evidence : Option FixPatch → FilePath → Exec W String (Gathered Carrier)
    unfolding run_test_suite
    gather_evidence patch path = do
      code_diff ← patched patch path
      tests_passed ← tested ctx.test_cmd path
      invariants_ok ← invariants_in path (is_empty ctx.invariants)
      report ← catch (
          run_proof fl sys wire load_config root
            (record {
              start_cmd = ctx.start_cmd;
              url = ctx.url;
              work_dir = path;
              ready_timeout = ctx.ready_timeout;
              limits = ctx.limits;
            })
            ctx.plan)
      log_text ← attempt (sys.read_to_string (proof_log root))
      pure (record {
        code_diff = code_diff;
        tests_passed = tests_passed;
        invariants_ok = invariants_ok;
        report = report;
        log_text = log_text;
      })

    abbrev pub evidence_of :
        Gathered Carrier → Result String (ProofReport Carrier) → Exec W String (Evidence Carrier)
    evidence_of g (err e) = raise e
    evidence_of g (ok report) = do
      now ← gets (now_epoch sys)
      pure (record {
        report = report;
        diagnosis = diagnose fl wire.formats now report (text_or_empty g.log_text);
        tests_passed = g.tests_passed;
        invariants_ok = g.invariants_ok;
        code_diff = g.code_diff;
      })

    unfoldable pub prove_and_diagnose : String → Option FixPatch → Exec W String (Evidence Carrier)
    unfolding gather_evidence
    prove_and_diagnose run_id patch = do
      shadow ← create sys materials root run_id
      gathered ← guarded sys root shadow (gather_evidence patch)
      evidence_of gathered gathered.report

    -- What a campaign on this project calls.
    abbrev pub campaign_of : (FixCandidate → String) → Campaign W Carrier
    campaign_of to_json = record {
      prove_and_diagnose = prove_and_diagnose;
      load_p95 = load_p95;
      to_json = to_json;
    }
