-- ===== src/Proof.antt =====
-- src/proof/model.rs: verdicts, how checks roll up into a fault, and faults into a report.
pub mod Checks
pub mod Rollup
pub mod Service
pub mod Faults
pub mod Worker
pub mod Engine
use mathlib.Core.List.{foldl}
use navin_engine.Prelude.{
  ℕ, ◌+◌, ◌/◌, ◌%◌, ◌^◌, String, Bool, true, false, Option, none, some, List, [], ◌∷◌, map, length,
  is_empty, if◌then◌else◌, Message,
}

pub data Verdict : Type 0 where
  pass weak fail : Verdict

-- The pessimistic combination: `(Fail, _) | (_, Fail)`, then `(Weak, _) | (_, Weak)`.
unfoldable pub worst : Verdict → Verdict → Verdict
worst fail _ = fail
worst _ fail = fail
worst weak _ = weak
worst _ weak = weak
worst _ _ = pass

unfoldable pub score : Verdict → ℕ
score pass = 100
score weak = 60
score fail = 0

-- `== Verdict::Pass`
abbrev pub is_pass : Verdict → Bool
is_pass pass = true
is_pass _ = false

pub record CheckResult (F : Type 0) : Type 0 where
  pub name : String
  pub verdict : Verdict
  pub detail : Message F
  pub measured : Option F
  pub threshold : Option F

unfoldable pub new_check : {F : Type 0} → String → Verdict → Message F → CheckResult F
new_check name verdict detail = record {
  name = name;
  verdict = verdict;
  detail = detail;
  measured = none;
  threshold = none;
}

unfoldable pub with_metric : {F : Type 0} → CheckResult F → F → F → CheckResult F
with_metric c measured threshold = record c { measured = some measured; threshold = some threshold }

pub record FaultOutcome (F : Type 0) : Type 0 where
  pub fault : String
  pub description : String
  pub checks : List (CheckResult F)
  pub verdict : Verdict
  pub evidence : List String

unfoldable pub worst_check : {F : Type 0} → Verdict → List (CheckResult F) → Verdict
worst_check acc [] = acc
worst_check acc (c ∷ cs) = worst_check (worst acc c.verdict) cs

unfoldable pub new_fault : {F : Type 0} → String → String → List (CheckResult F) → FaultOutcome F
unfolding worst_check
new_fault fault description checks = record {
  fault = fault;
  description = description;
  checks = checks;
  verdict = worst_check pass checks;
  evidence = [];
}

unfoldable pub with_evidence : {F : Type 0} → FaultOutcome F → List String → FaultOutcome F
with_evidence f evidence = record f { evidence = evidence }

pub record ProofReport (F : Type 0) : Type 0 where
  pub schema : String
  pub commit : String
  pub profile : String
  pub measured_in : String
  pub collected_at : String
  pub faults : List (FaultOutcome F)
  pub verdict : Verdict
  pub robustness_score : ℕ  -- u8
  pub notes : List String

unfoldable pub worst_fault : {F : Type 0} → Verdict → List (FaultOutcome F) → Verdict
worst_fault acc [] = acc
worst_fault acc (f ∷ fs) = worst_fault (worst acc f.verdict) fs

-- `.map(score).sum()`; the u32 wraps in `mean_score`, where the sum is used.
unfoldable pub sum_scores : {F : Type 0} → List (FaultOutcome F) → ℕ
sum_scores [] = 0
sum_scores (f ∷ fs) = score f.verdict + sum_scores fs

abbrev pub u32 : ℕ → ℕ
u32 n = n % 2 ^ 32

abbrev pub u8 : ℕ → ℕ
u8 n = n % 256

unfoldable pub mean_score : {F : Type 0} → List (FaultOutcome F) → ℕ
unfolding sum_scores
mean_score faults =
    if is_empty faults then 0 else u8 (u32 (sum_scores faults) / u32 (length faults))

-- `now` is the clock's reading, `measured_in` the displayed path.
unfoldable pub build :
    {F : Type 0}
    → String
    → String
    → String
    → String
    → List (FaultOutcome F)
    → List String
    → ProofReport F
unfolding worst_fault mean_score
build now commit profile measured_in faults notes = record {
  schema = "navin-proof/v1";
  commit = commit;
  profile = profile;
  measured_in = measured_in;
  collected_at = now;
  faults = faults;
  verdict = worst_fault pass faults;
  robustness_score = mean_score faults;
  notes = notes;
}
