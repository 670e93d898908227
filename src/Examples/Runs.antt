-- ===== src/Examples/Runs.antt =====
-- A service that fails under load until a fix is proposed, proved and diagnosed.
use navin_engine.Prelude.{
  ℕ, suc, ◌≤◌, ◌<◌, ◌≡◌, String, Bool, true, false, Option, none, some, List, [], ◌∷◌, ◌++◌, ltb,
  if◌then◌else◌, Result, ok, err, Exec, any, Formats, Message, Distinct,
}
use navin_engine.Prelude.Text.{show}
use navin_engine.System.{System}
use navin_engine.System.Path.{FilePath}
use navin_engine.Policy.{EvolveConfig, InvariantSpec}
use navin_engine.Optimize.Model.{LatencyStats}
use navin_engine.Proof.{pass, ProofReport, FaultOutcome}
use navin_engine.Proof.Engine.{ProofPlan, ProofTarget, for_profile, run_proof}
use navin_engine.Proof.Engine.Covered.{Covered}
use navin_engine.Runner.{Wire, Lab}
use navin_engine.Shadow.{Materials}
use navin_engine.Verify.Invariants.{InvariantOutcome, run_invariants}
use navin_engine.Verify.Invariants.Reported.{left, Reported, run_invariants-Reported}
use navin_engine.Examples.Machine.{machine, floats, value_or}

abbrev pub formats : Formats ℕ
formats = record {
  print = λ m. "detail";
  show_real = show;
  parse_real = λ s. some 12;
  to_lowercase = λ s. s;
}

-- Every request fails before the machine's count reaches 1000, none later.
abbrev pub stats_at : ℕ → LatencyStats ℕ
stats_at w = record {
  requests = if ltb w 1000 then 0 else 50;
  failures = if ltb w 1000 then 50 else 0;
  p50_ms = 5;
  p95_ms = 12;
  p99_ms = 20;
  rps = 10;
}

abbrev pub wire : Wire ℕ ℕ
wire = record {
  now = λ w. w;
  sleep = λ n w. suc w;
  spawn = λ cmd dir log limits w. (ok 1, suc w);
  try_exit_code = λ pid w. (ok none, suc w);
  kill_tree = λ pid w. (ok tt, suc w);
  tail = λ log n w. "";
  start_service = λ cmd dir log port timeout limits w. (ok 1, suc w);
  port_open = λ host port w. (true, suc w);
  request_once = λ host port spec w. (ok 5, suc w);
  probe_specs = λ host port specs duration concurrency w. (stats_at w, suc w);
  exercise = λ cmd dir log duration loops w. ((5 ∷ [], 0), suc w);
  rss_peak = λ pid duration w. (some 0, suc w);
  open_half = λ host port w. (true, suc w);
  drop_held = λ w. suc w;
  send_raw = λ host port payload w. suc w;
  start_proxy = λ host port config w. (ok 9, suc w);
  stop_proxy = λ w. (record { connections = 10; resets = 2 }, suc w);
  formats = formats;
}

abbrev pub load_config : FilePath → Exec ℕ String EvolveConfig
load_config root w = (err "no file", w)

abbrev pub materials : Materials ℕ
materials = record {
  apply_uncommitted = λ root dest w. (ok 0, suc w);
  copy_project = λ root dest w. (ok tt, suc w);
  lend_installed = λ root dest w. (ok 0, suc w);
}

abbrev pub project : FilePath
project = "srv" ∷ "app" ∷ []

abbrev specs : List InvariantSpec
specs =
    record { name = "totals"; command = "check-totals"; timeout_secs = 0 }
    ∷ record { name = "doubles"; command = "check-doubles"; timeout_secs = 5 }
    ∷ []

run_invariants-Reported_example :
    (o : InvariantOutcome) × (run_invariants machine project project specs 0
      ≡ (ok o, left machine project project specs 0))
    × Reported machine project project specs 0 o
run_invariants-Reported_example = run_invariants-Reported machine project project specs 0

-- A clock that a pause moves on, and a probe that answers from the third second on.
abbrev answers : ℕ → Bool × ℕ
answers w = (ltb 3000 w, suc w)

abbrev pub plan : ProofPlan ℕ
plan = for_profile floats "deep" 512

abbrev pub target : ProofTarget
target = record {
  start_cmd = "serve";
  url = "http://localhost:8080/health";
  work_dir = project;
  ready_timeout = 5000;
  limits = none;
}

abbrev pub blank_report : ProofReport ℕ
blank_report = record {
  schema = "";
  commit = "";
  profile = "";
  measured_in = "";
  collected_at = "";
  faults = [];
  verdict = pass;
  robustness_score = 0;
  notes = [];
}

abbrev pub proved : Result String (ProofReport ℕ) × ℕ
proved = run_proof floats machine wire load_config project target plan 0

abbrev pub proof_report : ProofReport ℕ
proof_report = value_or blank_report proved.0
