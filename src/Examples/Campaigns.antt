-- ===== src/Examples/Campaigns.antt =====
-- A campaign on a service that fails until a fix is there: its evidence, diagnosis and candidates.
use navin_engine.Prelude.{
  ℕ, suc, ◌-◌, ◌≡◌, refl, arith, String, true, false, none, some, List, [], ◌∷◌, ◌++◌, ltb, Result,
  ok, any, Distinct, All,
}
use navin_engine.System.{System}
use navin_engine.Policy.{SignatureSpec}
use navin_engine.Proof.{pass}
use navin_engine.Proof.Engine.{for_profile}
use navin_engine.Proof.Service.{Service}
use navin_engine.Proof.Faults.{run_load}
use navin_engine.Diagnose.Engine.{diagnose_with}
use navin_engine.Diagnose.Engine.Serious.{serious, has_broken, diagnose-serious}
use navin_engine.Fix.Model.{FixCandidate}
use navin_engine.Fix.Engine.{Evidence}
use navin_engine.Fix.Generator.{Bridge, BridgeGenerator, propose}
use navin_engine.Fix.Generator.Targeted.{Aimed, propose-Aimed}
use navin_engine.Fix.Prove.{FixContext, prove_and_diagnose}
use navin_engine.Fix.Prove.Gone.{prove_and_diagnose-Gone}
use navin_engine.Shadow.{shadow_dir}
use navin_engine.Shadow.Gone.{Removes}
use navin_engine.Evolve.{run_evolve}
use navin_engine.Examples.Machine.{machine, floats, is_ok, value_or, succeeded}
use navin_engine.Examples.Fixes.{finding, the_candidate}
use navin_engine.Examples.Runs.{
  formats, wire, load_config, materials, project, blank_report, proof_report,
}

-- A machine on which what is removed is gone.
abbrev shed : System ℕ
shed = record machine { exists = λ p w. ltb 0 w; remove_dir_all = λ p w. (ok tt, 0) }

removes : Removes shed
removes = record { removed = λ p w w' h. ground (arith, h) }

abbrev context : FixContext ℕ
context = record {
  start_cmd = "serve";
  url = "http://127.0.0.1:8080";
  plan = for_profile floats "quick" 512;
  ready_timeout = 5000;
  limits = none;
  test_cmd = some "make test";
  invariants = [];
}

abbrev no_evidence : Evidence ℕ
no_evidence = record {
  report = blank_report;
  diagnosis = record {
    schema = "";
    commit = "";
    collected_at = "";
    source_verdict = pass;
    robustness_score = 0;
    findings = [];
    summary = "";
    notes = [];
  };
  tests_passed = none;
  invariants_ok = none;
  code_diff = none;
}

abbrev tried : Result String (Evidence ℕ) × ℕ
tried =
    prove_and_diagnose floats shed wire load_config materials context project "fix-cand-0"
      (some the_candidate.patch) 0

tried_ok : is_ok tried.0 ≡ true
unfolding propose navin_engine.Prelude.◌>>=◌ navin_engine.System.with_context prove_and_diagnose
    navin_engine.Shadow.create_inner navin_engine.System.ensure navin_engine.System.gets
    navin_engine.Promote.Git.is_repo navin_engine.Promote.Git.head_sha navin_engine.Promote.Git.git
    navin_engine.Shadow.guarded navin_engine.System.catch navin_engine.Fix.Patch.apply
    navin_engine.Fix.Patch.safe_join navin_engine.System.Path.is_absolute
    navin_engine.System.Path.components navin_engine.System.Path.parent run_evolve
    navin_engine.Proof.Engine.run_proof_in_shadow navin_engine.Shadow.destroy_path
    navin_engine.System.attempt navin_engine.Proof.Engine.run_proof navin_engine.Policy.is_worker
    navin_engine.Fix.Diff.capture navin_engine.Prelude.Patterns.to_ascii_lowercase
    navin_engine.System.command_ok navin_engine.Policy.default_config
    navin_engine.Runner.Ports.parse_http_url navin_engine.Prelude.Patterns.strip_prefix
    navin_engine.Prelude.Patterns.rsplit_once navin_engine.Prelude.Patterns.split_once
    navin_engine.Prelude.Patterns.parse_unsigned navin_engine.Proof.Service.start_and_hold
    navin_engine.System.always navin_engine.Proof.Service.is_healthy
    navin_engine.Proof.Engine.inject_all navin_engine.Proof.Engine.inject run_load
    navin_engine.Proof.Faults.run_kill navin_engine.Proof.Service.kill
    navin_engine.Proof.Service.restart navin_engine.Proof.Service.shutdown
    navin_engine.Proof.Service.wait_healthy navin_engine.Runner.Poll.poll
    navin_engine.Shadow.remove_worktree
tried_ok = refl

prove_and_diagnose-Gone_example :
    shed.exists (shadow_dir project ++ "fix-cand-0" ∷ []) tried.1 ≡ false
prove_and_diagnose-Gone_example =
    prove_and_diagnose-Gone floats shed wire load_config materials removes project context
      "fix-cand-0" (some the_candidate.patch) 0 tried.1 (value_or no_evidence tried.0)
      (succeeded no_evidence tried tried_ok)

diagnose-serious_example :
    any serious
      (diagnose_with floats formats "epoch:7" proof_report "panic: out of memory" []).findings
    ≡ any has_broken proof_report.faults
diagnose-serious_example =
    diagnose-serious floats formats "epoch:7" "panic: out of memory" proof_report []

abbrev leak : List SignatureSpec
leak = record { marker = "leak"; id = "leak"; family = "memory"; cause = "a leak" } ∷ []

-- A bridge that offers a candidate for the finding, and one for another.
abbrev bridge : Bridge ℕ
bridge = record {
  to_json = λ request. "request";
  of_json = λ text. ok (the_candidate ∷ record the_candidate { target_finding = "other" } ∷ []);
  run_bridge = λ command input timeout preset w. (ok "candidates", suc w);
}

abbrev bridge_generator : BridgeGenerator
bridge_generator = record { command = "bridge"; timeout = 120; preset = none; start_command = none }

abbrev proposed : Result String (List FixCandidate) × ℕ
proposed = propose bridge bridge_generator project finding 0

proposed_ok : is_ok proposed.0 ≡ true
unfolding propose navin_engine.Prelude.◌>>=◌ navin_engine.System.with_context run_evolve
    navin_engine.Proof.Engine.run_proof_in_shadow navin_engine.Shadow.create_inner
    navin_engine.System.ensure navin_engine.System.gets navin_engine.Shadow.destroy_path
    navin_engine.Promote.Git.is_repo navin_engine.System.attempt navin_engine.Promote.Git.head_sha
    navin_engine.Promote.Git.git navin_engine.Shadow.guarded navin_engine.System.catch
    navin_engine.Proof.Engine.run_proof navin_engine.Policy.is_worker
    navin_engine.Prelude.Patterns.to_ascii_lowercase
proposed_ok = refl

propose-Aimed_example : All (Aimed finding) (value_or [] proposed.0)
propose-Aimed_example =
    propose-Aimed bridge bridge_generator project finding 0 proposed.1 (value_or [] proposed.0)
      (succeeded [] proposed proposed_ok)
