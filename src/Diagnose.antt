-- ===== src/Diagnose.antt =====
-- src/diagnose/model.rs: what a diagnosis says of a proof, and the order of its findings.
pub mod Ranked
pub mod Symptoms
pub mod LogScan
pub mod Rules
pub mod Engine
use navin_engine.Prelude.{
  ℕ, suc, ◌+◌, ◌%◌, ◌^◌, String, Bool, true, false, Option, List, [], ◌∷◌, ◌++◌, ◌==◌, leb, filter,
  length, is_empty, if◌then◌else◌,
}
use navin_engine.Prelude.Text.{concat, join, show}
use navin_engine.Proof.{Verdict}

pub data Severity : Type 0 where
  critical high medium low info : Severity

pub data Confidence : Type 0 where
  high_confidence medium_confidence low_confidence : Confidence

pub record Finding : Type 0 where
  pub id : String
  pub title : String
  pub severity : Severity
  pub confidence : Confidence
  pub related_fault : Option String
  pub symptom : String
  pub root_cause : String
  pub remediation : String
  pub family : String
  pub evidence : List String

pub record Diagnosis : Type 0 where
  pub schema : String
  pub commit : String
  pub collected_at : String
  pub source_verdict : Verdict
  pub robustness_score : ℕ  -- u8
  pub findings : List Finding
  pub summary : String
  pub notes : List String

-- `matches!(severity, Critical | High)`
abbrev pub is_serious : Severity → Bool
is_serious critical = true
is_serious high = true
is_serious _ = false

abbrev pub label : Severity → String
label critical = "critical"
label high = "high"
label medium = "medium"
label low = "low"
label info = "info"

-- The derived order: the worst severity comes first.
abbrev pub rank : Severity → ℕ
rank critical = 0
rank high = 1
rank medium = 2
rank low = 3
rank info = 4

-- `sort_by_key` is stable: a finding goes before the first that is not worse.
abbrev pub insert : Finding → List Finding → List Finding
insert f [] = f ∷ []
insert f (g ∷ gs) = if leb (rank f.severity) (rank g.severity) then f ∷ g ∷ gs else g ∷ insert f gs

abbrev pub sort : List Finding → List Finding
sort [] = []
sort (f ∷ fs) = insert f (sort fs)

abbrev pub is_of : Severity → Finding → Bool
is_of s f = rank f.severity == rank s

-- A counter of type u32.
abbrev count_of : Severity → List Finding → ℕ
count_of s fs = length (filter (is_of s) fs) % 2 ^ 32

abbrev part_of : Severity → List Finding → List String
part_of s fs =
    if count_of s fs == 0 then [] else concat (show (count_of s fs) ∷ " " ∷ label s ∷ []) ∷ []

unfoldable pub summarize : List Finding → ℕ → String
summarize fs score =
    if is_empty fs
    then concat ("No robustness issues diagnosed. Robustness " ∷ show score ∷ "/100." ∷ [])
    else concat (
        show (length fs)
        ∷ " finding(s): "
        ∷ join ", " (
            part_of critical fs
            ++ part_of high fs
            ++ part_of medium fs
            ++ part_of low fs
            ++ part_of info fs)
        ∷ ". Robustness "
        ∷ show score
        ∷ "/100."
        ∷ [])

-- `Diagnosis::build`; `now` is what `now_epoch` reads.
unfoldable pub build : String → String → Verdict → ℕ → List Finding → List String → Diagnosis
build now commit source_verdict robustness_score findings notes =
    let sorted = sort findings in
    record {
      schema = "navin-diagnosis/v1";
      commit = commit;
      collected_at = now;
      source_verdict = source_verdict;
      robustness_score = robustness_score;
      findings = sorted;
      summary = summarize sorted robustness_score;
      notes = notes;
    }
