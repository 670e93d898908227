-- ===== src/Examples/Fixes.antt =====
-- A patch applied to a shadow, a path joined to it, and a fix campaign with one candidate.
use navin_engine.Prelude.{
  ℕ, String, ◌≡◌, ◌↔◌, refl, Bool, true, false, Option, none, some, [], ◌∷◌, Result, ok, err, pure,
  ◌>>=◌, if◌then◌else◌, List,
}
use navin_engine.System.{with_context, catch, gets, now_epoch}
use navin_engine.System.{System}
use navin_engine.System.Path.{FilePath, is_absolute, components}
use navin_engine.Promote.Git.{is_repo, head_sha, git}
use navin_engine.Proof.{pass, ProofReport}
use navin_engine.Diagnose.{critical, high_confidence, Finding}
use navin_engine.Fix.Model.{files, FileEdit, FixCandidate, Comparison, accept, accepted, FixReport}
use navin_engine.Fix.Gate.{GateConfig, evaluate}
use navin_engine.Fix.Gate.Laws.{Helped, evaluate-accepts_iff}
use navin_engine.Fix.Patch.{safe_join, apply}
use navin_engine.Fix.Patch.Confined.{Under, walled, safe_join-Under, apply-Confined}
use navin_engine.Fix.Engine.{
  Evidence, FixGenerator, Campaign, attempt_of, evaluate_all, evaluate_candidate, write_proposal,
  run_fix,
}
use navin_engine.Fix.Engine.Sifted.{Sifted, run_fix-Sifted}
use navin_engine.Examples.Machine.{machine, floats, is_ok, value_or, succeeded}

abbrev shadow : FilePath
shadow = "tmp" ∷ "shadow" ∷ []

safe_join_ok : safe_join shadow "src/main.rs" ≡ ok ("tmp" ∷ "shadow" ∷ "src" ∷ "main.rs" ∷ [])
unfolding safe_join is_absolute components
safe_join_ok = refl

safe_join-Under_example : Under shadow ("tmp" ∷ "shadow" ∷ "src" ∷ "main.rs" ∷ [])
safe_join-Under_example =
    safe_join-Under shadow "src/main.rs" ("tmp" ∷ "shadow" ∷ "src" ∷ "main.rs" ∷ []) safe_join_ok

-- A machine that remembers which paths were written or made.
abbrev disk : System (List FilePath)
disk = record {
  run_git = λ dir args w. (err "no git", w);
  git_apply = λ dir diff w. (err "no git", w);
  run_command = λ cmd dir log deadline w. (err "no shell", w);
  exists = λ p w. false;
  is_file = λ p w. false;
  is_dir = λ p w. false;
  create_dir_all = λ p w. (ok tt, p ∷ w);
  write = λ p text w. (ok tt, p ∷ w);
  read_to_string = λ p w. (err "no such file", w);
  copy = λ p q w. (ok tt, q ∷ w);
  remove_dir_all = λ p w. (ok tt, p ∷ w);
  read_dir = λ p w. (err "no directory", w);
  set_owner_only = λ p w. (ok tt, w);
  random_bytes = λ n w. (err "no entropy", w);
  epoch_secs = λ w. 7;
}

abbrev edits : List FileEdit
edits =
    record { path = "src/main.rs"; contents = "x" }
    ∷ record { path = "../../etc/passwd"; contents = "x" }
    ∷ []

apply-Confined_example :
    apply (walled disk shadow) (files edits) shadow [] ≡ apply disk (files edits) shadow []
apply-Confined_example = apply-Confined disk shadow edits []

abbrev comparison : Comparison ℕ
comparison = record {
  score_before = 40;
  score_after = 90;
  verdict_before = pass;
  verdict_after = pass;
  resolved_target = true;
  new_high_findings = [];
  p95_before_ms = some 100;
  p95_after_ms = some 90;
  tests_before = some true;
  tests_after = some true;
  invariants_before = none;
  invariants_after = none;
}

abbrev strict_gate : GateConfig ℕ
strict_gate = record { require_target_resolved = true; latency_regression_tolerance = 0 }

evaluate-accepts_iff_example :
    ((evaluate floats comparison strict_gate).decision ≡ accept)
    ↔ Helped floats comparison strict_gate
evaluate-accepts_iff_example = evaluate-accepts_iff floats comparison strict_gate

abbrev pub finding : Finding
finding = record {
  id = "crash.load";
  title = "crash";
  severity = critical;
  confidence = high_confidence;
  related_fault = some "load";
  symptom = "crash";
  root_cause = "queue";
  remediation = "bound it";
  family = "reliability";
  evidence = [];
}

abbrev proof_report : ℕ → ProofReport ℕ
proof_report score = record {
  schema = "navin-proof/v1";
  commit = "abc";
  profile = "quick";
  measured_in = "shadow";
  collected_at = "epoch:7";
  faults = [];
  verdict = pass;
  robustness_score = score;
  notes = [];
}

abbrev evidence_of : Bool → Evidence ℕ
evidence_of fixed = record {
  report = proof_report (if fixed then 90 else 40);
  diagnosis = record {
    schema = "navin-diagnosis/v1";
    commit = "abc";
    collected_at = "epoch:7";
    source_verdict = pass;
    robustness_score = if fixed then 90 else 40;
    findings = if fixed then [] else finding ∷ [];
    summary = "";
    notes = [];
  };
  tests_passed = none;
  invariants_ok = none;
  code_diff = none;
}

abbrev is_patched : {A : Type 0} → Option A → Bool
is_patched none = false
is_patched (some a) = true

abbrev campaign : Campaign ℕ ℕ
campaign = record {
  prove_and_diagnose = λ run_id patch w. (ok (evidence_of (is_patched patch)), w);
  load_p95 = λ r. none;
  to_json = λ c. "candidate";
}

abbrev pub the_candidate : FixCandidate
the_candidate = record {
  id = "bound-the-queue";
  target_finding = "crash.load";
  rationale = "bound the queue";
  family = "reliability";
  patch = files (record { path = "a.txt"; contents = "x" } ∷ []);
}

abbrev generator : FixGenerator ℕ
generator = record { name = "fixed"; propose = λ f w. (ok (the_candidate ∷ []), w) }

abbrev empty_report : FixReport ℕ
empty_report = record {
  schema = "navin-fix/v1";
  commit = "";
  collected_at = "";
  target_finding = "";
  score_before = 0;
  verdict_before = pass;
  attempts = [];
  accepted = none;
  proposal_path = none;
  notes = [];
}

abbrev run_campaign : Result String (FixReport ℕ) × ℕ
run_campaign = run_fix machine floats campaign shadow "crash.load" generator strict_gate 0

run_campaign_ok : is_ok run_campaign.0 ≡ true
unfolding run_fix evaluate_all evaluate_candidate write_proposal with_context catch gets now_epoch
    ◌>>=◌ pure is_repo head_sha git accepted attempt_of evaluate
run_campaign_ok = refl

abbrev campaign_report : FixReport ℕ
campaign_report = value_or empty_report run_campaign.0

run_fix-Sifted_example : Sifted machine floats campaign strict_gate campaign_report
run_fix-Sifted_example =
    run_fix-Sifted machine floats campaign strict_gate shadow "crash.load" generator 0
      run_campaign.1 campaign_report (succeeded empty_report run_campaign run_campaign_ok)
