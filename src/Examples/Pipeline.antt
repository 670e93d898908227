-- ===== src/Examples/Pipeline.antt =====
-- The pipeline on a service that fails until a fix is there.
use navin_engine.Prelude.{ℕ, ◌-◌, ◌≡◌, refl, String, none, List, [], ◌∷◌, Result, ok}
use navin_engine.System.{System}
use navin_engine.Proof.{pass}
use navin_engine.Proof.Service.{Service}
use navin_engine.Proof.Faults.{run_load}
use navin_engine.Fix.Engine.{FixGenerator}
use navin_engine.Fix.Prove.{prove_and_diagnose}
use navin_engine.Fix.Prove.{load_p95}
use navin_engine.Evolve.{EvolveContext, EvolveReport, EvolveCodec, run_evolve}
use navin_engine.Evolve.Within.{Within}
use navin_engine.Examples.Machine.{machine, floats, crypto, value_or}
use navin_engine.Examples.Fixes.{the_candidate}
use navin_engine.Examples.Promotions.{codec, autonomous}
use navin_engine.Examples.Runs.{wire, load_config, materials, project}

-- A generator after which the service bears its load.
abbrev healer : FixGenerator ℕ
healer = record {
  name = "healer";
  propose = λ f w. (ok (record the_candidate { target_finding = f.id } ∷ []), 1000);
}

abbrev pub stored : EvolveCodec ℕ
stored = record {
  proof_json = λ r. "proof";
  diagnosis_json = λ d. "diagnosis";
  fix_json = λ r. "fix";
  fix_markdown = λ r. "markdown";
  run_json = λ r. "run";
  candidate_json = λ c. "candidate";
  candidate_of_json = λ text. ok the_candidate;
}

abbrev campaign : EvolveContext
campaign = record {
  start_cmd = "serve";
  url = "http://127.0.0.1:8080";
  profile = "quick";
  ready_timeout = 5000;
  limits = none;
  max_findings = 3;
  test_cmd = none;
}

abbrev blank_run : EvolveReport
blank_run = record {
  schema = "";
  commit = "";
  collected_at = "";
  profile = "";
  generator = "";
  robustness_before = 0;
  verdict_before = pass;
  findings_total = 0;
  findings_addressed = 0;
  outcomes = [];
  notes = [];
}

abbrev evolved : Result String EvolveReport × ℕ
evolved =
    run_evolve floats machine wire load_config materials codec stored crypto project autonomous
      campaign healer 0

-- One finding was addressed.
addressed : (value_or blank_run evolved.0).findings_addressed ≡ 1
unfolding run_evolve navin_engine.Prelude.◌>>=◌ navin_engine.Proof.Engine.run_proof_in_shadow
    navin_engine.Shadow.create_inner navin_engine.System.ensure navin_engine.System.gets
    navin_engine.System.with_context navin_engine.Shadow.destroy_path
    navin_engine.Promote.Git.is_repo navin_engine.System.attempt navin_engine.Promote.Git.head_sha
    navin_engine.Promote.Git.git navin_engine.Shadow.guarded navin_engine.System.catch
    navin_engine.Proof.Engine.run_proof navin_engine.Policy.is_worker
    navin_engine.Prelude.Patterns.to_ascii_lowercase navin_engine.Policy.default_config
    navin_engine.Runner.Ports.parse_http_url navin_engine.Prelude.Patterns.strip_prefix
    navin_engine.Prelude.Patterns.rsplit_once navin_engine.Prelude.Patterns.split_once
    navin_engine.Prelude.Patterns.parse_unsigned navin_engine.Proof.Service.start_and_hold
    navin_engine.System.always navin_engine.Proof.Service.is_healthy
    navin_engine.Proof.Engine.inject_all navin_engine.Proof.Engine.inject run_load
    navin_engine.Proof.Faults.run_kill navin_engine.Proof.Service.kill
    navin_engine.Proof.Service.restart navin_engine.Proof.Service.shutdown
    navin_engine.Diagnose.Engine.diagnose_project navin_engine.Evolve.address_all
    navin_engine.Proof.build navin_engine.Proof.with_evidence navin_engine.Proof.new_fault
    navin_engine.Proof.Checks.no_crash navin_engine.Proof.Checks.error_rate
    navin_engine.Shadow.remove_worktree navin_engine.Proof.Checks.resource_bound
    navin_engine.Diagnose.Symptoms.parse_metric navin_engine.Prelude.Text.join
    navin_engine.Prelude.Text.show navin_engine.Proof.Service.wait_healthy
    navin_engine.Runner.Poll.poll navin_engine.Proof.Checks.recovery
    navin_engine.Prelude.Patterns.lines navin_engine.Diagnose.Rules.error_rate
    navin_engine.Fix.Engine.run_fix prove_and_diagnose navin_engine.Fix.Engine.evaluate_all
    navin_engine.Fix.Engine.evaluate_candidate navin_engine.Fix.Model.accepted
    navin_engine.Fix.Engine.attempt_of navin_engine.Fix.Patch.apply navin_engine.Fix.Patch.safe_join
    navin_engine.System.Path.is_absolute navin_engine.System.Path.components
    navin_engine.System.Path.parent navin_engine.Fix.Diff.capture navin_engine.Fix.Gate.evaluate
    navin_engine.Fix.Prove.load_p95 navin_engine.Proof.score navin_engine.Proof.worst
    navin_engine.Fix.Engine.write_proposal navin_engine.Evolve.load_proposal
addressed = refl
