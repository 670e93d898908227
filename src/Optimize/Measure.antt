-- ===== src/Optimize/Measure.antt =====
-- src/optimize/engine.rs: one measurement in a shadow, and one proof. The shadow is patched, tested
-- and held to the invariants; then the service answers the vectors and its windows are timed.
use navin_engine.Prelude.{
  ℕ, zero, suc, max, String, Bool, true, false, not, Option, none, some, List, [], ◌∷◌, ◌++◌,
  is_empty, Exec, pure, ◌>>=◌, ◌>>◌,
}
use navin_engine.Prelude.Text.{concat, trim, is_blank}
use navin_engine.Prelude.Reals.{F64}
use navin_engine.System.{System, with_context, catch, ensure, command_ok, engine_dir}
use navin_engine.System.Path.{FilePath}
use navin_engine.Policy.{InvariantSpec, EvolveConfig, is_worker}
use navin_engine.Baseline.{ProbeSpec, specs_for}
use navin_engine.Fix.Model.{FixPatch}
use navin_engine.Fix.Patch.{apply}
use navin_engine.Fix.Diff.{capture}
use navin_engine.Optimize.Model.{Objective, LatencyStats}
use navin_engine.Proof.{ProofReport}
use navin_engine.Proof.Engine.{ProofPlan, run_proof, is_local, or_default, lift, in_lab}
use navin_engine.Proof.Service.{Service, specs_or_get, start_and_hold, is_healthy, shutdown}
use navin_engine.Proof.Worker.{Worker, start_worker, is_worker_healthy, exercise_stats}
use navin_engine.Runner.{SandboxLimits, Wire, Lab, observe}
use navin_engine.Runner.Ports.{parse_http_url}
use navin_engine.Shadow.{Materials, create, guarded}
use navin_engine.Verify.Crawl.{Answer, discover_vectors, capture_all}
use navin_engine.Verify.Differential.{Fingerprint}
use navin_engine.Verify.Invariants.{run_invariants}

pub record OptimizeContext (F : Type 0) : Type 0 where
  pub start_cmd : String
  pub url : String
  pub ready_timeout : ℕ
  pub limits : Option SandboxLimits
  pub test_cmd : Option String
  pub bench_duration : ℕ
  pub bench_concurrency : ℕ
  pub bench_repeats : ℕ
  pub max_variants : ℕ
  pub min_gain_percent : F
  pub objective : Objective
  pub diff_vectors : ℕ

pub data DiffMode : Type 0 where
  off : DiffMode
  discover : ℕ → DiffMode
  replay : List String → DiffMode

pub record Measurement (F : Type 0) : Type 0 where
  pub runs : List (LatencyStats F)
  pub tests_passed : Option Bool
  pub invariants_ok : Option Bool
  pub invariant_failures : List String
  pub fingerprints : Option (List Fingerprint)
  pub code_diff : Option String

-- What is known before the service starts: the tests, the invariants and the diff.
abbrev pub Inspected : Type 0
Inspected = Option String × Option Bool × Option Bool × List String

abbrev pub service_log : FilePath → FilePath
service_log root = engine_dir root ++ "logs" ∷ "optimize-service.log" ∷ []

abbrev pub warmup : ℕ
warmup = 1000

abbrev measured :
    {F : Type 0} → Inspected → List (LatencyStats F) → Option (List Fingerprint) → Measurement F
measured (diff, tests, invariants, failures) runs prints = record {
  runs = runs;
  tests_passed = tests;
  invariants_ok = invariants;
  invariant_failures = failures;
  fingerprints = prints;
  code_diff = diff;
}

-- The measured windows, one after the other.
unfoldable pub windows : {W S : Type 0} → ℕ → (W → S × W) → W → List S × W
windows zero window w = ([], w)
windows (suc n) window w =
    let r = window w in let rest = windows n window r.1 in (r.0 ∷ rest.0, rest.1)

module _ {W : Type 0} (fl : F64) (sys : System W) (wire : Wire W fl.Carrier)
    (load_config : FilePath → Exec W String EvolveConfig) (materials : Materials W)
    (fetch : String → ℕ → String → W → Option Answer × W) where
  open fl use {Carrier}

  module _ (ctx : OptimizeContext Carrier) (root : FilePath) where
    unfoldable pub run_test_suite : String → FilePath → Exec W String Bool
    run_test_suite cmd work_dir =
        command_ok sys cmd work_dir (engine_dir root ++ "logs" ∷ "optimize-tests.log" ∷ []) 600

    abbrev patched : Option FixPatch → FilePath → Exec W String (Option String)
    patched none path = pure none
    patched (some patch) path = do
      with_context "applying the variant to the shadow" (apply sys patch path)
      capture sys path

    abbrev tested : Option String → FilePath → Exec W String (Option Bool)
    tested none path = pure none
    tested (some cmd) path = do passed ← run_test_suite cmd path; pure (some passed)

    abbrev invariants_of :
        List InvariantSpec → FilePath → Bool → Exec W String (Option Bool × List String)
    invariants_of invariants path true = pure (none, [])
    invariants_of invariants path false = do
      outcome ← run_invariants sys path root invariants
      pure (some outcome.passed, outcome.failures)

    abbrev inspect : Option FixPatch → List InvariantSpec → FilePath → Exec W String Inspected
    inspect patch invariants path = do
      diff ← patched patch path
      tests ← tested ctx.test_cmd path
      checked ← invariants_of invariants path (is_empty invariants)
      pure (diff, tests, checked.0, checked.1)

    abbrev worker_in : FilePath → EvolveConfig → Worker
    worker_in path config = record {
      start_cmd = ctx.start_cmd;
      work_dir = path;
      log_path = service_log root;
      health_cmd = config.target.health_cmd;
      ready_timeout = ctx.ready_timeout;
      limits = ctx.limits;
      command_log = engine_dir root ++ "logs" ∷ "optimize-service.cmd.log" ∷ [];
      exercise_log = engine_dir root ++ "logs" ∷ "optimize-service.exercise.log" ∷ [];
    }

    -- A benchmark of the worker's exercise command.
    abbrev exercise_for : String → FilePath → ℕ → W → LatencyStats Carrier × W
    exercise_for cmd path duration =
        exercise_stats fl sys wire cmd path (service_log root) duration ctx.bench_concurrency

    abbrev bench_worker :
        Inspected → FilePath → EvolveConfig → Exec (Lab W) String (Measurement Carrier)
    bench_worker inspected path config = do
      let worker : Worker = worker_in path config
      let cmd : String = config.target.exercise_cmd
      start_worker fl sys wire worker
      healthy ← is_worker_healthy fl sys wire worker
      ensure healthy "worker did not pass its initial health check"
      observe (exercise_for cmd path warmup)
      runs ← observe (windows (max ctx.bench_repeats 1) (exercise_for cmd path ctx.bench_duration))
      shutdown wire
      pure (measured inspected runs none)

    abbrev service_in : FilePath → String → ℕ → List ProbeSpec → Service
    service_in path host port specs = record {
      start_cmd = ctx.start_cmd;
      work_dir = path;
      log_path = service_log root;
      host = host;
      port = port;
      specs = specs_or_get specs;
      ready_timeout = ctx.ready_timeout;
      limits = ctx.limits;
    }

    abbrev prints_of : DiffMode → String → ℕ → String → W → Option (List Fingerprint) × W
    prints_of off host port base_path w = (none, w)
    prints_of (discover bound) host port base_path w =
        let found = discover_vectors fetch host port base_path bound w in
        let prints = capture_all fetch host port found.0 found.1 in (some prints.0, prints.1)
    prints_of (replay vectors) host port base_path w =
        let prints = capture_all fetch host port vectors w in (some prints.0, prints.1)

    abbrev bench_service :
        Inspected
        → FilePath
        → String
        → ℕ
        → String
        → List ProbeSpec
        → DiffMode
        → Exec (Lab W) String (Measurement Carrier)
    bench_service inspected path host port base_path specs diff = do
      let svc : Service = service_in path host port specs
      start_and_hold wire svc
      healthy ← observe (is_healthy wire svc)
      ensure healthy "service did not answer an initial probe"
      prints ← observe (prints_of diff host port base_path)
      observe (wire.probe_specs host port specs warmup ctx.bench_concurrency)
      runs ← observe (
          windows (max ctx.bench_repeats 1)
            (wire.probe_specs host port specs ctx.bench_duration ctx.bench_concurrency))
      shutdown wire
      pure (measured inspected runs prints)

    -- `if config.target.is_worker()`
    abbrev bench :
        Inspected → FilePath → EvolveConfig → DiffMode → Bool → Exec W String (Measurement Carrier)
    bench inspected path config diff true = do
      ensure (not (is_blank (trim config.target.exercise_cmd)))
          "optimizing a worker needs [target] exercise_cmd in .navin/evolve.toml"
      in_lab fl sys wire load_config (bench_worker inspected path config)
    bench inspected path config diff false = do
      address ← lift fl sys wire load_config (parse_http_url ctx.url)
      ensure (is_local address.0)
          (concat ("benchmarks are localhost-only, refusing " ∷ address.0 ∷ []))
      in_lab fl sys wire load_config (
          bench_service inspected path address.0 address.1 address.2
            (specs_for config.target address.2) diff)

    abbrev measure_in :
        Option FixPatch
        → DiffMode
        → List InvariantSpec
        → FilePath
        → Exec W String (Measurement Carrier)
    measure_in patch diff invariants path = do
      inspected ← inspect patch invariants path
      loaded ← catch (load_config root)
      let config : EvolveConfig = or_default loaded
      bench inspected path config diff (is_worker config.target)

    unfoldable pub measure_patched :
        String
        → Option FixPatch
        → DiffMode
        → List InvariantSpec
        → Exec W String (Measurement Carrier)
    unfolding windows run_test_suite
    measure_patched run_id patch diff invariants = do
      shadow ← create sys materials root run_id
      guarded sys root shadow (measure_in patch diff invariants)

    abbrev patched_for_proof : Option FixPatch → FilePath → Exec W String Unit
    patched_for_proof none path = pure tt
    patched_for_proof (some patch) path =
        with_context "applying the variant to the proof shadow" (apply sys patch path)

    -- The shadow is destroyed before the report is looked at.
    unfoldable pub prove_patched :
        String → ProofPlan Carrier → Option FixPatch → Exec W String (ProofReport Carrier)
    prove_patched run_id plan patch = do
      shadow ← create sys materials root run_id
      proved ← guarded sys root shadow (λ path. do
        patched_for_proof patch path
        catch (
            run_proof fl sys wire load_config root
              (record {
                start_cmd = ctx.start_cmd;
                url = ctx.url;
                work_dir = path;
                ready_timeout = ctx.ready_timeout;
                limits = ctx.limits;
              })
              plan))
      lift fl sys wire load_config proved
