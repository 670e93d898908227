-- ===== src/Diagnose/Engine.antt =====
-- src/diagnose/engine.rs, and the incidental findings of src/diagnose/rules.rs: from a proof and
-- the log of its service to a diagnosis.
pub mod Serious
use navin_engine.Prelude.{
  ℕ, String, Bool, true, false, not, Option, none, some, List, [], ◌∷◌, ◌++◌, map, filter, contains,
  is_empty, ◌&&◌, if◌then◌else◌, Formats, Result, ok, err, Exec, pure, ◌>>=◌,
}
use navin_engine.Prelude.Text.{concat, is_blank}
use navin_engine.Prelude.Reals.{F64}
use navin_engine.System.{System, attempt, catch, gets, now_epoch}
use navin_engine.System.Path.{FilePath}
use navin_engine.Policy.{SignatureSpec, EvolveConfig}
use navin_engine.Proof.{ProofReport}
use navin_engine.Proof.Engine.{proof_log}
use navin_engine.Diagnose.{low, low_confidence, Finding, Diagnosis, build}
use navin_engine.Diagnose.Symptoms.{Symptom, extract}
use navin_engine.Diagnose.LogScan.{SignalHit, scan_with}
use navin_engine.Diagnose.Rules.{related_signal_ids, diagnose_symptom}

abbrev pub related_to_all : List Symptom → List String
related_to_all [] = []
related_to_all (symptom ∷ symptoms) = related_signal_ids symptom.kind ++ related_to_all symptoms

abbrev pub incidental : SignalHit → Finding
incidental hit = record {
  id = concat ("log." ∷ hit.id ∷ []);
  title = concat ("Log signal: " ∷ hit.cause ∷ []);
  severity = low;
  confidence = low_confidence;
  related_fault = none;
  symptom = "a known error signature appeared in the logs";
  root_cause = hit.cause;
  remediation = "investigate the logged error even though invariants held";
  family = hit.family;
  evidence = hit.line ∷ [];
}

abbrev pub is_incidental : List String → SignalHit → Bool
is_incidental related hit = not (contains hit.id related)

-- Signals that no symptom explains.
abbrev pub incidental_findings : List Symptom → List SignalHit → List Finding
incidental_findings symptoms hits =
    map incidental (filter (is_incidental (related_to_all symptoms)) hits)

abbrev pub findings_of : List Symptom → List SignalHit → List Finding
findings_of symptoms hits =
    map (diagnose_symptom hits) symptoms ++ incidental_findings symptoms hits

abbrev notes_of : List Symptom → List SignalHit → String → List String
notes_of symptoms hits log_text =
    (if is_empty symptoms && is_empty hits
      then "proof passed cleanly and no known error signatures were logged" ∷ []
      else [])
    ++ (if is_blank log_text
        then "no service log was available; findings rely on proof checks alone" ∷ []
        else [])

abbrev pub text_or_empty : Option String → String
text_or_empty none = ""
text_or_empty (some text) = text

abbrev signatures_of : Result String EvolveConfig → List SignatureSpec
signatures_of (ok config) = config.signatures
signatures_of (err e) = []

module _ (fl : F64) (formats : Formats fl.Carrier) where
  open fl use {Carrier}

  -- `now` is the clock's reading.
  unfoldable pub diagnose_with :
      String → ProofReport Carrier → String → List SignatureSpec → Diagnosis
  unfolding build scan_with
  diagnose_with now report log_text custom =
      let symptoms = extract fl formats report in
      let hits = scan_with formats.to_lowercase log_text custom in
      build now report.commit report.verdict report.robustness_score (findings_of symptoms hits)
        (notes_of symptoms hits log_text)

  abbrev pub diagnose : String → ProofReport Carrier → String → Diagnosis
  diagnose now report log_text = diagnose_with now report log_text []

  module _ {W : Type 0} (sys : System W) (load_config : FilePath → Exec W String EvolveConfig) where
    unfoldable pub diagnose_project : FilePath → ProofReport Carrier → Exec W String Diagnosis
    unfolding diagnose_with
    diagnose_project root report = do
      log_text ← attempt (sys.read_to_string (proof_log root))
      loaded ← catch (load_config root)
      now ← gets (now_epoch sys)
      pure (diagnose_with now report (text_or_empty log_text) (signatures_of loaded))
