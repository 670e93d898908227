-- ===== src/Evolve.antt =====
-- src/evolve/: the pipeline that proves a project, diagnoses it, and for each serious finding
-- runs a fix campaign and promotes its winner under the policy. Progress events and log lines are
-- left out; serde_json and the markdown of src/report.rs are arguments.
pub mod Within
use navin_engine.Prelude.{
  ℕ, zero, suc, min, String, Bool, true, false, Option, none, some, List, [], ◌∷◌, ◌++◌, filter,
  take, length, is_empty, if◌then◌else◌, Result, ok, err, Exec, pure, raise, ◌>>=◌, ◌>>◌, Formats,
}
use navin_engine.Prelude.Text.{concat, join}
use navin_engine.Prelude.Reals.{F64}
use navin_engine.System.{System, with_context, attempt, catch, gets, now_epoch}
use navin_engine.System.Path.{FilePath, display}
use navin_engine.Policy.{EvolveConfig}
use navin_engine.Proof.{Verdict, ProofReport}
use navin_engine.Proof.Engine.{for_profile, run_proof_in_shadow}
use navin_engine.Diagnose.{Finding, Diagnosis, is_serious, label}
use navin_engine.Diagnose.Engine.{diagnose_project}
use navin_engine.Fix.Model.{FixCandidate, FixReport}
use navin_engine.Fix.Gate.{default_config}
use navin_engine.Fix.Engine.{FixGenerator, run_fix}
use navin_engine.Fix.Prove.{FixContext, campaign_of}
use navin_engine.Promote.Certificate.{Crypto}
use navin_engine.Promote.Record.{
  PromotionOutcome, blocked, branch_only, merged, PromotionRecord, Codec, write_sidecar,
}
use navin_engine.Promote.Engine.{promote}
use navin_engine.Runner.{SandboxLimits, Wire}
use navin_engine.Shadow.{Materials}

pub record EvolveContext : Type 0 where
  pub start_cmd : String
  pub url : String
  pub profile : String
  pub ready_timeout : ℕ
  pub limits : Option SandboxLimits
  pub max_findings : ℕ
  pub test_cmd : Option String

pub record FindingOutcome : Type 0 where
  pub finding_id : String
  pub severity : String
  pub family : String
  pub candidates_generated : ℕ
  pub fix_accepted : Bool
  pub promotion_id : Option String
  pub promotion_outcome : Option String
  pub note : String

pub record EvolveReport : Type 0 where
  pub schema : String
  pub commit : String
  pub collected_at : String
  pub profile : String
  pub generator : String
  pub robustness_before : ℕ  -- u8
  pub verdict_before : Verdict
  pub findings_total : ℕ
  pub findings_addressed : ℕ
  pub outcomes : List FindingOutcome
  pub notes : List String

-- The texts of what is stored, and the markdown of a fix report.
pub record EvolveCodec (F : Type 0) : Type 0 where
  pub proof_json : ProofReport F → String
  pub diagnosis_json : Diagnosis → String
  pub fix_json : FixReport F → String
  pub fix_markdown : FixReport F → String
  pub run_json : EvolveReport → String
  pub candidate_json : FixCandidate → String
  pub candidate_of_json : String → Result String FixCandidate

-- `{:?}`
abbrev pub debug_outcome : PromotionOutcome → String
debug_outcome blocked = "Blocked"
debug_outcome branch_only = "BranchOnly"
debug_outcome merged = "Merged"

abbrev pub new_outcome : Finding → FindingOutcome
new_outcome finding = record {
  finding_id = finding.id;
  severity = label finding.severity;
  family = finding.family;
  candidates_generated = 0;
  fix_accepted = false;
  promotion_id = none;
  promotion_outcome = none;
  note = "";
}

abbrev is_target : Finding → Bool
is_target f = is_serious f.severity

-- The serious findings, at most so many.
abbrev pub targets_of : EvolveContext → EvolveConfig → List Finding → List Finding
targets_of ctx config findings =
    take (min ctx.max_findings config.evolve.budget.max_candidates) (filter is_target findings)

module _ {W : Type 0} (fl : F64) (sys : System W) (wire : Wire W fl.Carrier)
    (load_config : FilePath → Exec W String EvolveConfig) (materials : Materials W) (codec : Codec)
    (stored : EvolveCodec fl.Carrier) (crypto : Crypto) (root : FilePath) where
  open fl use {Carrier}

  -- The `save` of the four reports: `<commit>.json` in a directory of `.navin`.
  abbrev pub save_json : String → String → String → Exec W String FilePath
  save_json folder commit text = do
    let dir : FilePath = root ++ ".navin" ∷ folder ∷ []
    let path : FilePath = dir ++ concat (commit ∷ ".json" ∷ []) ∷ []
    with_context (concat ("cannot create " ∷ display dir ∷ [])) (sys.create_dir_all dir)
    with_context (concat ("cannot write " ∷ display path ∷ [])) (sys.write path text)
    pure path

  -- `FixReport::save`, with its markdown beside it
  unfoldable pub save_fix : FixReport Carrier → Exec W String FilePath
  save_fix report = do
    path ← save_json "fixes" report.commit (stored.fix_json report)
    write_sidecar sys codec (root ++ ".navin" ∷ "fixes" ∷ concat (report.commit ∷ ".md" ∷ []) ∷ [])
        (stored.fix_markdown report)
    pure path

  abbrev parsed_candidate : Result String FixCandidate → Exec W String FixCandidate
  parsed_candidate (ok candidate) = pure candidate
  parsed_candidate (err e) = raise e

  unfoldable pub load_proposal : String → Exec W String FixCandidate
  load_proposal id = do
    text ←
        sys.read_to_string
          (root ++ ".navin" ∷ "fixes" ∷ "proposals" ∷ concat (id ∷ ".json" ∷ []) ∷ [])
    parsed_candidate (stored.candidate_of_json text)

  module _ (config : EvolveConfig) where
    -- What the promotion says of the finding.
    abbrev pub promoted : FindingOutcome → Result String PromotionRecord → FindingOutcome
    promoted o (ok r) = record o {
      promotion_id = some r.id;
      promotion_outcome = some (debug_outcome r.outcome);
      note = join "; " r.reasons;
    }
    promoted o (err e) = record o { note = concat ("fix accepted but promotion failed: " ∷ e ∷ []) }

    abbrev pub promote_proposal :
        FindingOutcome
        → FixReport Carrier
        → Result String FixCandidate
        → Exec W String FindingOutcome
    promote_proposal o report (err e) =
        pure (record o { note = concat ("fix accepted but proposal unreadable: " ∷ e ∷ []) })
    promote_proposal o report (ok candidate) = do
      done ←
          catch (
            promote sys codec crypto root report candidate (stored.candidate_json candidate) config)
      pure (promoted o done)

    abbrev none_note : FixReport Carrier → String
    none_note report =
        if is_empty report.attempts
        then "no candidates generated"
        else "no candidate passed the gate"

    -- From the accepted candidate on; with the count of the findings addressed.
    abbrev pub after_fix :
        FindingOutcome → FixReport Carrier → ℕ → Option String → Exec W String (FindingOutcome × ℕ)
    after_fix o report addressed none = pure (record o { note = none_note report }, addressed)
    after_fix o report addressed (some id) = do
      proposal ← catch (load_proposal id)
      outcome ← promote_proposal (record o { fix_accepted = true }) report proposal
      pure (outcome, suc addressed)

    abbrev pub fixed :
        FindingOutcome → ℕ → Result String (FixReport Carrier) → Exec W String (FindingOutcome × ℕ)
    fixed o addressed (err e) =
        pure (record o { note = concat ("fix failed: " ∷ e ∷ []) }, addressed)
    fixed o addressed (ok report) = do
      attempt (save_fix report)
      after_fix (record o { candidates_generated = length report.attempts }) report addressed
          report.accepted

    module _ (ctx : FixContext Carrier) (generator : FixGenerator W) where
      -- The body of the loop.
      unfoldable pub address : Finding → ℕ → Exec W String (FindingOutcome × ℕ)
      unfolding default_config
      address finding addressed = do
        report ← catch (
            run_fix sys fl
              (campaign_of fl sys wire load_config materials ctx root stored.candidate_json) root
              finding.id generator (default_config fl))
        fixed (new_outcome finding) addressed report

      unfoldable pub address_all :
          List Finding → List FindingOutcome → ℕ → Exec W String (List FindingOutcome × ℕ)
      unfolding address
      address_all [] outcomes addressed = pure (outcomes, addressed)
      address_all (finding ∷ findings) outcomes addressed = do
        done ← address finding addressed
        address_all findings (outcomes ++ done.0 ∷ []) done.1

    abbrev fix_context : EvolveContext → FixContext Carrier
    fix_context ctx = record {
      start_cmd = ctx.start_cmd;
      url = ctx.url;
      plan = for_profile fl ctx.profile config.evolve.resources.max_memory_mb;
      ready_timeout = ctx.ready_timeout;
      limits = ctx.limits;
      test_cmd = ctx.test_cmd;
      invariants = config.invariants;
    }

    abbrev target_notes : List Finding → List String
    target_notes targets =
        if is_empty targets then "no critical/high findings to address" ∷ [] else []

    abbrev pub run_report :
        EvolveContext
        → String
        → ProofReport Carrier
        → Diagnosis
        → String
        → List FindingOutcome × ℕ
        → EvolveReport
    run_report ctx name proof diagnosis now done = record {
      schema = "navin-evolve-run/v1";
      commit = proof.commit;
      collected_at = now;
      profile = ctx.profile;
      generator = name;
      robustness_before = proof.robustness_score;
      verdict_before = proof.verdict;
      findings_total = length diagnosis.findings;
      findings_addressed = done.1;
      outcomes = done.0;
      notes = target_notes (targets_of ctx config diagnosis.findings);
    }

    unfoldable pub run_evolve : EvolveContext → FixGenerator W → Exec W String EvolveReport
    unfolding for_profile
    run_evolve ctx generator = do
      proof ←
          run_proof_in_shadow fl sys wire load_config materials root "evolve-proof" ctx.start_cmd
            ctx.url (for_profile fl ctx.profile config.evolve.resources.max_memory_mb)
            ctx.ready_timeout ctx.limits false
      save_json "proofs" proof.commit (stored.proof_json proof)
      diagnosis ← diagnose_project fl wire.formats sys load_config root proof
      save_json "diagnoses" diagnosis.commit (stored.diagnosis_json diagnosis)
      done ← address_all (fix_context ctx) generator (targets_of ctx config diagnosis.findings) [] 0
      now ← gets (now_epoch sys)
      let report : EvolveReport = run_report ctx generator.name proof diagnosis now done
      save_json "evolve-runs" report.commit (stored.run_json report)
      pure report
