-- ===== src/Diagnose/Symptoms.antt =====
-- src/diagnose/symptoms.rs: what went wrong in a proof, by its checks and its evidence.
use navin_engine.Prelude.{
  String, Bool, ◌&&◌, Option, none, some, List, [], ◌∷◌, ◌++◌, str_eq, if◌then◌else◌, Formats,
}
use navin_engine.Prelude.Text.{concat, join, trim_start}
use navin_engine.Prelude.Patterns.{split_once, take_while, is_digit, is_char}
use mathlib.Core.Bool.{◌||◌}
use Prim.Native.Char.{Char}
use navin_engine.Prelude.Reals.{F64}
use navin_engine.Proof.{Verdict, pass, weak, fail, CheckResult, FaultOutcome, ProofReport}

pub data SymptomKind : Type 0 where
  crash_after_fault no_recovery slow_recovery high_error_rate memory_overshoot tail_latency_spike :
      SymptomKind

pub record Symptom : Type 0 where
  pub kind : SymptomKind
  pub fault : Option String
  pub detail : String
  pub evidence : List String

abbrev on_fail : SymptomKind → Verdict → Option SymptomKind
on_fail kind fail = some kind
on_fail kind _ = none

abbrev on_recovery : Verdict → Option SymptomKind
on_recovery fail = some no_recovery
on_recovery weak = some slow_recovery
on_recovery pass = none

abbrev unless_pass : SymptomKind → Verdict → Option SymptomKind
unless_pass kind pass = none
unless_pass kind _ = some kind

-- The arms of the match on the name and the verdict of a check.
abbrev pub kind_of : String → Verdict → Option SymptomKind
kind_of name verdict =
    if str_eq name "no_crash"
    then on_fail crash_after_fault verdict
    else if str_eq name "recovery"
    then on_recovery verdict
    else if str_eq name "error_rate"
    then unless_pass high_error_rate verdict
    else if str_eq name "resource_bound"
    then unless_pass memory_overshoot verdict
    else none

abbrev pub is_number_char : Char → Bool
is_number_char c = is_digit c || is_char b'.' c

module _ (fl : F64) (formats : Formats fl.Carrier) where
  open fl use {Carrier, le, mul, of_ℕ}
  open formats use {print, show_real, parse_real, to_lowercase}

  abbrev pub number_after : Option (String × String) → Option Carrier
  number_after none = none
  number_after (some (before, after)) = parse_real (take_while is_number_char (trim_start after))

  unfoldable pub parse_metric : String → String → Option Carrier
  parse_metric text key = number_after (split_once key text)

  abbrev both : Option Carrier → Option Carrier → Option (Carrier × Carrier)
  both (some a) (some b) = some (a, b)
  both (some a) none = none
  both none _ = none

  abbrev pub parse_p95_p99 : List String → Option (Carrier × Carrier)
  parse_p95_p99 evidence =
      let text = to_lowercase (join " " evidence) in
      both (parse_metric text "p95") (parse_metric text "p99")

  abbrev pub symptom_of :
      FaultOutcome Carrier → CheckResult Carrier → Option SymptomKind → List Symptom
  symptom_of fault check none = []
  symptom_of fault check (some kind) =
      record {
        kind = kind;
        fault = some fault.fault;
        detail = print check.detail;
        evidence = fault.evidence;
      }
      ∷ []

  abbrev pub of_checks : FaultOutcome Carrier → List (CheckResult Carrier) → List Symptom
  of_checks fault [] = []
  of_checks fault (check ∷ checks) =
      symptom_of fault check (kind_of check.name check.verdict) ++ of_checks fault checks

  abbrev pub spike : FaultOutcome Carrier → Option (Carrier × Carrier) → List Symptom
  spike fault none = []
  spike fault (some (p95, p99)) =
      if le (mul p95 (of_ℕ 10)) p99 && le (of_ℕ 250) p99
      then record {
        kind = tail_latency_spike;
        fault = some fault.fault;
        detail = concat ("P95 " ∷ show_real p95 ∷ " ms vs P99 " ∷ show_real p99 ∷ " ms" ∷ []);
        evidence = fault.evidence;
      }
        ∷ []
      else []

  abbrev pub of_load : FaultOutcome Carrier → List Symptom
  of_load fault =
      if str_eq fault.fault "load" then spike fault (parse_p95_p99 fault.evidence) else []

  abbrev pub of_faults : List (FaultOutcome Carrier) → List Symptom
  of_faults [] = []
  of_faults (fault ∷ faults) = of_checks fault fault.checks ++ of_load fault ++ of_faults faults

  abbrev pub extract : ProofReport Carrier → List Symptom
  extract report = of_faults report.faults
