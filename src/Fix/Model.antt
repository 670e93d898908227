-- ===== src/Fix/Model.antt =====
-- src/fix/model.rs: candidates, comparisons, the gate's result and the report of a campaign.
-- `F` is the type of floats.
use navin_engine.Prelude.{ℕ, String, Bool, true, false, Option, List, Message}
use navin_engine.Proof.{Verdict}

pub record FileEdit : Type 0 where
  pub path : String
  pub contents : String

pub data FixPatch : Type 0 where
  files : List FileEdit → FixPatch
  unified_diff : String → FixPatch

pub record FixCandidate : Type 0 where
  pub id : String
  pub target_finding : String
  pub rationale : String
  pub family : String
  pub patch : FixPatch

pub record Comparison (F : Type 0) : Type 0 where
  pub score_before : ℕ  -- u8
  pub score_after : ℕ  -- u8
  pub verdict_before : Verdict
  pub verdict_after : Verdict
  pub resolved_target : Bool
  pub new_high_findings : List String
  pub p95_before_ms : Option F
  pub p95_after_ms : Option F
  pub tests_before : Option Bool
  pub tests_after : Option Bool
  pub invariants_before : Option Bool
  pub invariants_after : Option Bool

pub data Decision : Type 0 where
  accept reject : Decision

-- A reason of the gate joins all messages of its side with "; " behind its label; the one of an
-- optimization stands by itself.
pub data Reason (F : Type 0) : Type 0 where
  against fores : List (Message F) → Reason F
  said : Message F → Reason F

pub record GateResult (F : Type 0) : Type 0 where
  pub decision : Decision
  pub reasons : List (Reason F)

-- `decision == Decision::Accept`
abbrev pub is_accept : Decision → Bool
is_accept accept = true
is_accept reject = false

unfoldable pub accepted : {F : Type 0} → GateResult F → Bool
accepted g = is_accept g.decision

pub record FixAttempt (F : Type 0) : Type 0 where
  pub candidate_id : String
  pub target_finding : String
  pub rationale : String
  pub comparison : Comparison F
  pub gate : GateResult F
  pub after_findings : List String
  pub apply_error : Option String
  pub diff : Option String

pub record FixReport (F : Type 0) : Type 0 where
  pub schema : String
  pub commit : String
  pub collected_at : String
  pub target_finding : String
  pub score_before : ℕ  -- u8
  pub verdict_before : Verdict
  pub attempts : List (FixAttempt F)
  pub accepted : Option String
  pub proposal_path : Option String
  pub notes : List String
