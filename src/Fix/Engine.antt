-- ===== src/Fix/Engine.antt =====
-- src/fix/engine.rs: a fix campaign. It proves the code as it is, asks the generator for
-- candidates, proves each in a shadow of its own, and proposes the first that the gate accepts.
-- The proof in a shadow (`prove_and_diagnose`), the generator, the reading of a P95 (`load_p95`)
-- and serde_json are arguments.
pub mod Sifted
use navin_engine.Prelude.{
  ℕ, suc, String, Bool, true, false, not, Option, none, some, List, [], ◌∷◌, ◌++◌, map, find,
  filter, any, is_empty, str_eq, if◌then◌else◌, Result, ok, err, Exec, pure, ◌>>=◌, ◌>>◌, fmt, str,
}
use navin_engine.Prelude.Text.{concat, show}
use navin_engine.Prelude.Reals.{F64}
use navin_engine.System.{System, with_context, catch, gets, now_epoch}
use navin_engine.System.Path.{FilePath, display}
use navin_engine.Proof.{Verdict, ProofReport}
use navin_engine.Diagnose.{Finding, Diagnosis, is_serious}
use navin_engine.Fix.Model.{
  FixPatch, FixCandidate, Comparison, accept, reject, against, GateResult, accepted, FixAttempt,
  FixReport,
}
use navin_engine.Fix.Gate.{GateConfig, evaluate}
use navin_engine.Promote.Git.{is_repo, head_sha}

pub record Evidence (F : Type 0) : Type 0 where
  pub report : ProofReport F
  pub diagnosis : Diagnosis
  pub tests_passed : Option Bool
  pub invariants_ok : Option Bool
  pub code_diff : Option String

-- `dyn FixGenerator`
pub record FixGenerator (W : Type 0) : Type 0 where
  pub name : String
  pub propose : Finding → Exec W String (List FixCandidate)

-- What the campaign calls: the proof in a shadow under a run id, the P95 of a report, and the
-- candidate as JSON.
pub record Campaign (W F : Type 0) : Type 0 where
  pub prove_and_diagnose : String → Option FixPatch → Exec W String (Evidence F)
  pub load_p95 : ProofReport F → Option F
  pub to_json : FixCandidate → String

abbrev is_id : String → Finding → Bool
is_id id f = str_eq f.id id

module _ {W : Type 0} (sys : System W) (fl : F64) where
  open fl use {Carrier}

  module _ (campaign : Campaign W Carrier) where
    open campaign use {prove_and_diagnose, load_p95, to_json}

    abbrev compare : Evidence Carrier → String → Evidence Carrier → Comparison Carrier
    compare before target_finding after = record {
      score_before = before.report.robustness_score;
      score_after = after.report.robustness_score;
      verdict_before = before.report.verdict;
      verdict_after = after.report.verdict;
      resolved_target = not (any (is_id target_finding) after.diagnosis.findings);
      new_high_findings =
          map (λ (f : Finding). f.id)
            (filter (λ (f : Finding). is_serious f.severity) after.diagnosis.findings);
      p95_before_ms = load_p95 before.report;
      p95_after_ms = load_p95 after.report;
      tests_before = before.tests_passed;
      tests_after = after.tests_passed;
      invariants_before = before.invariants_ok;
      invariants_after = after.invariants_ok;
    }

    -- The attempt, by what the proof of the candidate returned.
    unfoldable pub attempt_of :
        GateConfig Carrier
        → Evidence Carrier
        → String
        → FixCandidate
        → Result String (Evidence Carrier)
        → FixAttempt Carrier
    attempt_of cfg before target_finding candidate (ok after) =
        let comparison = compare before target_finding after in
        record {
          candidate_id = candidate.id;
          target_finding = target_finding;
          rationale = candidate.rationale;
          comparison = comparison;
          gate = evaluate fl comparison cfg;
          after_findings = map (λ (f : Finding). f.id) after.diagnosis.findings;
          apply_error = none;
          diff = after.code_diff;
        }
    attempt_of cfg before target_finding candidate (err e) = record {
      candidate_id = candidate.id;
      target_finding = target_finding;
      rationale = candidate.rationale;
      comparison = record {
        score_before = before.report.robustness_score;
        score_after = before.report.robustness_score;
        verdict_before = before.report.verdict;
        verdict_after = before.report.verdict;
        resolved_target = false;
        new_high_findings = [];
        p95_before_ms = load_p95 before.report;
        p95_after_ms = none;
        tests_before = before.tests_passed;
        tests_after = none;
        invariants_before = before.invariants_ok;
        invariants_after = none;
      };
      gate = record {
        decision = reject;
        reasons = against (fmt "candidate failed to apply/prove: {err:#}" (str e ∷ []) ∷ []) ∷ [];
      };
      after_findings = [];
      apply_error = some e;
      diff = none;
    }

    unfoldable pub evaluate_candidate :
        String
        → GateConfig Carrier
        → Evidence Carrier
        → String
        → FixCandidate
        → Exec W String (FixAttempt Carrier)
    evaluate_candidate run_id cfg before target_finding candidate = do
      proved ← catch (prove_and_diagnose run_id (some candidate.patch))
      pure (attempt_of cfg before target_finding candidate proved)

    -- The first accepted candidate is kept.
    abbrev pub keep : Bool → FixCandidate → Option FixCandidate → Option FixCandidate
    keep true candidate none = some candidate
    keep true candidate (some first) = some first
    keep false candidate first = first

    unfoldable pub evaluate_all :
        GateConfig Carrier
        → Evidence Carrier
        → String
        → ℕ
        → List FixCandidate
        → List (FixAttempt Carrier)
        → Option FixCandidate
        → Exec W String (List (FixAttempt Carrier) × Option FixCandidate)
    evaluate_all cfg before target_finding index [] attempts first = pure (attempts, first)
    evaluate_all cfg before target_finding index (c ∷ cs) attempts first = do
      attempt ←
          evaluate_candidate (concat ("fix-cand-" ∷ show index ∷ [])) cfg before target_finding c
      evaluate_all cfg before target_finding (suc index) cs (attempts ++ attempt ∷ [])
          (keep (accepted attempt.gate) c first)

    unfoldable pub write_proposal : FilePath → FixCandidate → Exec W String FilePath
    write_proposal root candidate = do
      let dir : FilePath = root ++ ".navin" ∷ "fixes" ∷ "proposals" ∷ []
      with_context (concat ("cannot create " ∷ display dir ∷ [])) (sys.create_dir_all dir)
      let path : FilePath = dir ++ concat (candidate.id ∷ ".json" ∷ []) ∷ []
      with_context (concat ("cannot write " ∷ display path ∷ []))
          (sys.write path (to_json candidate))
      pure path

    abbrev pub persist :
        FilePath → Option FixCandidate → Exec W String (Option String × Option String)
    persist root none = pure (none, none)
    persist root (some candidate) = do
      path ← write_proposal root candidate
      pure (some candidate.id, some (display path))

    abbrev candidates_for : FixGenerator W → Option Finding → Exec W String (List FixCandidate)
    candidates_for generator none = pure []
    candidates_for generator (some finding) = generator.propose finding

    abbrev missing_note : String → Option Finding → List String
    missing_note target_finding (some f) = []
    missing_note target_finding none =
        concat (
          "target finding `" ∷ target_finding
          ∷ "` was not present before the fix; proceeding but resolution cannot be confirmed" ∷ [])
        ∷ []

    abbrev empty_note : String → List FixCandidate → List String
    empty_note name candidates =
        if is_empty candidates
        then concat ("generator `" ∷ name ∷ "` proposed no candidates" ∷ []) ∷ []
        else []

    abbrev commit_of : FilePath → Bool → Exec W String String
    commit_of root true = head_sha sys root
    commit_of root false = pure "workdir"

    abbrev pub fix_report :
        String
        → String
        → Evidence Carrier
        → String
        → List String
        → List (FixAttempt Carrier)
        → Option String × Option String
        → FixReport Carrier
    fix_report commit target_finding before now notes attempts proposed = record {
      schema = "navin-fix/v1";
      commit = commit;
      collected_at = now;
      target_finding = target_finding;
      score_before = before.report.robustness_score;
      verdict_before = before.report.verdict;
      attempts = attempts;
      accepted = proposed.0;
      proposal_path = proposed.1;
      notes = notes;
    }

    unfoldable pub run_fix :
        FilePath → String → FixGenerator W → GateConfig Carrier → Exec W String (FixReport Carrier)
    run_fix root target_finding generator cfg = do
      repo ← gets (is_repo sys root)
      commit ← commit_of root repo
      before ← prove_and_diagnose "fix-before" none
      let target = find (is_id target_finding) before.diagnosis.findings
      candidates ← candidates_for generator target
      let notes = missing_note target_finding target ++ empty_note generator.name candidates
      evaluated ← evaluate_all cfg before target_finding 0 candidates [] none
      proposed ← persist root evaluated.1
      now ← gets (now_epoch sys)
      pure (fix_report commit target_finding before now notes evaluated.0 proposed)
