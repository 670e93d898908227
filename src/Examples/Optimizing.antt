-- ===== src/Examples/Optimizing.antt =====
-- A service that a proposed variant makes faster.
use navin_engine.Prelude.{
  ℕ, suc, ◌≡◌, refl, ◌↔◌, String, true, Option, none, some, [], ◌∷◌, ltb, if◌then◌else◌, Result, ok,
}
use navin_engine.Fix.Engine.{FixGenerator}
use navin_engine.Optimize.Report.{OptimizeReport, OptimizeCodec}
use navin_engine.Optimize.Engine.{run_optimize}
use navin_engine.Optimize.Engine.Verified.{Verified}
use navin_engine.Optimize.Judge.{MeasureVariantArgs, judge}
use navin_engine.Optimize.Judge.Eligible.{Sound, judge-Sound}
use navin_engine.Optimize.Measure.{OptimizeContext, Measurement}
use navin_engine.Optimize.Model.{throughput, LatencyStats, Sample}
use navin_engine.Runner.{Wire}
use navin_engine.Verify.Crawl.{Answer, discover_vectors}
use navin_engine.Verify.Crawl.Capped.{Vectors, discover_vectors-Vectors}
use navin_engine.Verify.Differential.{Fingerprint}
use navin_engine.Examples.Machine.{machine, floats, crypto, value_or}
use navin_engine.Examples.Fixes.{the_candidate}
use navin_engine.Examples.Promotions.{codec, autonomous}
use navin_engine.Examples.Runs.{wire, load_config, materials, project}
use navin_engine.Examples.Pipeline.{stored}

-- Every page links to two others, and to a foreign one.
abbrev fetch : String → ℕ → String → ℕ → Option Answer × ℕ
fetch host port path w = (
  some (record {
    status = 200;
    bytes = 104 ∷ 105 ∷ [];
    text = "<a href=\"/a\"><a href=\"//cdn\"><a href=\"/b\"><form action=\"/a\">";
  }),
  suc w,
)

discover_vectors-Vectors_example :
    Vectors "/" 3 ((discover_vectors fetch "localhost" 8080 "/" 3 0).0)
discover_vectors-Vectors_example = discover_vectors-Vectors fetch "localhost" 8080 "/" 3 0

crawled : (discover_vectors fetch "localhost" 8080 "/" 3 0).0 ≡ "/" ∷ "/a" ∷ "/b" ∷ []
unfolding discover_vectors navin_engine.Verify.Crawl.parts_behind
    navin_engine.Prelude.Patterns.split_once
crawled = refl

-- From the machine's count 5000 on, the service bears three times the load.
abbrev stats_after : ℕ → LatencyStats ℕ
stats_after w = record {
  requests = 50;
  failures = 0;
  p50_ms = 5;
  p95_ms = 12;
  p99_ms = 20;
  rps = if ltb w 5000 then 10 else 30;
}

abbrev faster_wire : Wire ℕ ℕ
faster_wire = record wire {
  probe_specs = λ host port specs duration concurrency w. (stats_after w, suc w);
}

abbrev bench : OptimizeContext ℕ
bench = record {
  start_cmd = "serve";
  url = "http://localhost:8080/health";
  ready_timeout = 5000;
  limits = none;
  test_cmd = some "make test";
  bench_duration = 1000;
  bench_concurrency = 4;
  bench_repeats = 0;
  max_variants = 1;
  min_gain_percent = 5;
  objective = throughput;
  diff_vectors = 2;
}

abbrev optimizer : FixGenerator ℕ
optimizer = record {
  name = "optimizer";
  propose = λ f w. (ok (the_candidate ∷ the_candidate ∷ []), 5000);
}

abbrev optimize_codec : OptimizeCodec ℕ
optimize_codec = record {
  stats_json = λ s. "stats";
  report_json = λ r. "report";
  report_markdown = λ r. "markdown";
  evolve = stored;
}

abbrev quick_stats : LatencyStats ℕ
quick_stats = stats_after 0

abbrev no_report : OptimizeReport ℕ
no_report = record {
  schema = "";
  commit = "";
  collected_at = "";
  objective = throughput;
  baseline = quick_stats;
  baseline_p95_std_ms = none;
  baseline_rps_std = none;
  bench_repeats = 0;
  invariants_checked = 0;
  baseline_score = 0;
  variants = [];
  winner = none;
  winner_gain_percent = none;
  promotion_id = none;
  promotion_outcome = none;
  notes = [];
}

abbrev optimized : Result String (OptimizeReport ℕ) × ℕ
optimized =
    run_optimize floats machine faster_wire load_config materials fetch codec optimize_codec crypto
      bench project autonomous optimizer 1000

abbrev one_sample : Sample ℕ
one_sample = record { mean = 10; std_dev = 0; n = 1 }

abbrev page : Fingerprint
page = record { path = "/"; status = 200; body_len = 2; body_hash = "00" }

abbrev before : MeasureVariantArgs ℕ
before = record {
  objective = throughput;
  baseline = quick_stats;
  base_p95 = one_sample;
  base_rps = one_sample;
  tests_before = some true;
  invariants_before = none;
  baseline_prints = some (page ∷ []);
  diff_paths = "/" ∷ [];
}

abbrev after : Measurement ℕ
after = record {
  runs = stats_after 6000 ∷ [];
  tests_passed = some true;
  invariants_ok = none;
  invariant_failures = [];
  fingerprints = some (page ∷ []);
  code_diff = none;
}

judge-Sound_example :
    ((judge floats machine wire before the_candidate after).eligible ≡ true)
    ↔ Sound floats machine wire before after
judge-Sound_example = judge-Sound floats machine wire before after the_candidate

optimized_winner : (value_or no_report optimized.0).winner ≡ some the_candidate.id
unfolding run_optimize discover_vectors navin_engine.Verify.Crawl.parts_behind
    navin_engine.Prelude.Patterns.split_once navin_engine.Prelude.◌>>=◌ navin_engine.System.gets
    navin_engine.Promote.Git.is_repo navin_engine.Promote.Git.head_sha navin_engine.Promote.Git.git
    navin_engine.Optimize.Measure.prove_patched navin_engine.Shadow.create_inner
    navin_engine.System.ensure navin_engine.System.with_context navin_engine.Shadow.destroy_path
    navin_engine.System.attempt navin_engine.Shadow.guarded navin_engine.System.catch
    navin_engine.Proof.Engine.run_proof navin_engine.Policy.is_worker
    navin_engine.Prelude.Patterns.to_ascii_lowercase navin_engine.Policy.default_config
    navin_engine.Runner.Ports.parse_http_url navin_engine.Prelude.Patterns.rsplit_once
    navin_engine.Prelude.Patterns.parse_unsigned navin_engine.Proof.Service.start_and_hold
    navin_engine.System.always navin_engine.Proof.Service.is_healthy
    navin_engine.Proof.Engine.inject_all navin_engine.Proof.Engine.inject
    navin_engine.Proof.Faults.run_load navin_engine.Proof.Faults.run_kill
    navin_engine.Proof.Service.kill navin_engine.Proof.Service.restart
    navin_engine.Proof.Service.shutdown navin_engine.Proof.build navin_engine.Proof.worst
    navin_engine.Proof.with_evidence navin_engine.Proof.new_fault navin_engine.Proof.Checks.no_crash
    navin_engine.Proof.Checks.error_rate navin_engine.Proof.Checks.resource_bound
    navin_engine.Proof.Service.wait_healthy navin_engine.Runner.Poll.poll
    navin_engine.Shadow.remove_worktree navin_engine.Proof.Checks.recovery
    navin_engine.Optimize.Measure.measure_patched navin_engine.System.command_ok
    navin_engine.Optimize.Model.aggregate navin_engine.Optimize.Engine.measure_all
    navin_engine.Optimize.Judge.measure_variant navin_engine.Optimize.Model.select_winner
    navin_engine.Prelude.Text.show navin_engine.Fix.Patch.apply navin_engine.Fix.Patch.safe_join
    navin_engine.System.Path.is_absolute navin_engine.Verify.Differential.compare
    navin_engine.Verify.Crawl.capture_all navin_engine.Verify.Differential.diverge_all
    navin_engine.Optimize.Model.error_ratio navin_engine.Optimize.Model.gain_percent
    navin_engine.Optimize.Model.significant navin_engine.Optimize.Model.sample
    navin_engine.System.Path.components navin_engine.System.Path.parent
    navin_engine.Fix.Diff.capture navin_engine.Proof.score navin_engine.Promote.Engine.promote
    navin_engine.Promote.Certificate.issue navin_engine.Optimize.Report.synthesized_fix_report
    navin_engine.Promote.Certificate.sign navin_engine.Promote.Certificate.load_or_create
    navin_engine.Promote.Policy.decide navin_engine.Promote.Certificate.is_valid
    navin_engine.Promote.Engine.carry_out navin_engine.Promote.Engine.promote_with_git
    navin_engine.Promote.Git.create_branch navin_engine.Promote.Git.add_worktree
    navin_engine.Promote.Engine.prepare_commit navin_engine.Promote.Git.commit_all
    navin_engine.Promote.Engine.try_merge navin_engine.Promote.Git.is_clean
    navin_engine.Prelude.Text.trim navin_engine.Promote.Engine.finish
    navin_engine.Promote.Record.save
optimized_winner = refl
