-- ===== src/Fix/Gate.antt =====
-- src/fix/gate.rs: the acceptance gate. `fl` is the type of floats.
pub mod Laws
use navin_engine.Prelude.{
  ℕ, ◌+◌, String, Bool, true, false, not, ◌&&◌, Option, none, some, List, [], ◌∷◌, ◌++◌, ltb,
  is_empty, if◌then◌else◌, Message, fmt, num, str, strs, real,
}
use navin_engine.Prelude.Reals.{F64}
use navin_engine.Fix.Model.{
  Comparison, Decision, accept, reject, GateResult, Reason, against, fores,
}

pub record GateConfig (F : Type 0) : Type 0 where
  pub require_target_resolved : Bool
  pub latency_regression_tolerance : F

-- The two lists that `evaluate` pushes to, in order.
pub record Tally (F : Type 0) : Type 0 where
  pub against : List (Message F)
  pub fores : List (Message F)

abbrev push_against : {F : Type 0} → Tally F → Message F → Tally F
push_against t m = record t { against = t.against ++ m ∷ [] }

abbrev push_for : {F : Type 0} → Tally F → Message F → Tally F
push_for t m = record t { fores = t.fores ++ m ∷ [] }

-- `match (before, after)` of the test suite and of the business invariants, whose arms are the
-- same: (_, Some(true)), (Some(false), Some(false)), (_, Some(false)), _.
abbrev check_suite :
    {F : Type 0} → Message F → Message F → Message F → Option Bool → Option Bool → Tally F → Tally F
check_suite passes already broken _ (some true) t = push_for t passes
check_suite passes already broken (some false) (some false) t = push_for t already
check_suite passes already broken _ (some false) t = push_against t broken
check_suite passes already broken _ none t = t

module _ (fl : F64) where
  open fl use {Carrier, lt, add, mul, div, of_ℕ}

  unfoldable pub default_config : GateConfig Carrier
  default_config = record {
    require_target_resolved = true;
    latency_regression_tolerance = div (of_ℕ 5) (of_ℕ 10);
  }

  check_target : Comparison Carrier → GateConfig Carrier → Tally Carrier → Tally Carrier
  check_target cmp cfg t =
      if cfg.require_target_resolved
      then (if cmp.resolved_target
          then push_for t (fmt "targeted finding resolved" [])
          else push_against t (fmt "targeted finding not resolved" []))
      else t

  check_score : Comparison Carrier → Tally Carrier → Tally Carrier
  check_score cmp t =
      let scores = num cmp.score_before ∷ num cmp.score_after ∷ [] in
      if ltb cmp.score_after cmp.score_before
      then push_against t (fmt "robustness dropped {} -> {}" scores)
      else push_for t (fmt "robustness {} -> {}" scores)

  check_findings : Comparison Carrier → Tally Carrier → Tally Carrier
  check_findings cmp t =
      if is_empty cmp.new_high_findings
      then t
      else push_against t (fmt "introduced serious findings: {}" (strs cmp.new_high_findings ∷ []))

  abbrev latency :
      Option Carrier → Option Carrier → GateConfig Carrier → Tally Carrier → Tally Carrier
  latency (some before) (some after) cfg t =
      let tolerance = cfg.latency_regression_tolerance in
      let ceiling = mul before (add (of_ℕ 1) tolerance) in
      if lt (of_ℕ 0) before && lt ceiling after
      then push_against t (
          fmt "P95 latency regressed {before:.1} ms -> {after:.1} ms (> +{:.0}%)"
            (real before ∷ real after ∷ real (mul tolerance (of_ℕ 100)) ∷ []))
      else push_for t
          (fmt "P95 latency {before:.1} ms -> {after:.1} ms" (real before ∷ real after ∷ []))
  latency (some before) none cfg t = t
  latency none _ cfg t = t

  -- The tests of `evaluate`, in its order.
  tally : Comparison Carrier → GateConfig Carrier → Tally Carrier
  unfolding check_target check_score check_findings
  tally cmp cfg =
      let t0 = check_target cmp cfg (record { against = []; fores = [] }) in
      let t1 = check_findings cmp (check_score cmp t0) in
      let t2 =
        check_suite (fmt "project test suite passes" [])
          (fmt "test suite was already failing before the patch" [])
          (fmt "project test suite fails after the patch" []) cmp.tests_before cmp.tests_after t1 in
      let t3 =
        check_suite (fmt "business invariants hold" [])
          (fmt "business invariants were already failing before the patch" [])
          (fmt "business invariants fail after the patch" []) cmp.invariants_before
          cmp.invariants_after t2 in
      latency cmp.p95_before_ms cmp.p95_after_ms cfg t3

  abbrev decide : Tally Carrier → GateResult Carrier
  decide t = record {
    decision = if is_empty t.against then accept else reject;
    reasons =
        (if is_empty t.against then [] else against t.against ∷ [])
        ++ (if is_empty t.fores then [] else fores t.fores ∷ []);
  }

  unfoldable pub evaluate : Comparison Carrier → GateConfig Carrier → GateResult Carrier
  unfolding tally
  evaluate cmp cfg = decide (tally cmp cfg)
