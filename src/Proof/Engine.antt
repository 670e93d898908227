-- ===== src/Proof/Engine.antt =====
-- src/proof/engine.rs: a proof starts the service, injects the faults of the plan one after the
-- other, stops it, and reports. Progress events are left out. Reading `.navin/evolve.toml` is an
-- argument, since toml is a library.
pub mod Covered
use navin_engine.Prelude.{
  ℕ, ◌*◌, ◌/◌, max, String, Bool, true, false, not, ◌||◌, Option, none, some, List, [], ◌∷◌, ◌++◌,
  filter, any, str_eq, if◌then◌else◌, Result, ok, err, Exec, pure, raise, ◌>>=◌, ◌>>◌,
}
use navin_engine.Prelude.Text.{concat}
use navin_engine.Prelude.Reals.{F64}
use navin_engine.System.{System, always, catch, gets, ensure, now_epoch, engine_dir}
use navin_engine.System.Path.{FilePath, display}
use navin_engine.Policy.{EvolveConfig, default_config, is_worker}
use navin_engine.Baseline.{specs_for}
use navin_engine.Promote.Git.{is_repo, head_sha}
use navin_engine.Proof.{FaultOutcome, ProofReport, build}
use navin_engine.Proof.Service.{
  Service, specs_or_get, start_and_hold, restart, is_healthy, wait_healthy, shutdown,
}
use navin_engine.Proof.Worker.{
  Worker, start_worker, is_worker_healthy, run_worker_load, run_kill_recovery,
}
use navin_engine.Proof.Faults.{run_load, run_malformed, run_flood, run_chaos, run_kill}
use navin_engine.Proof.Faults.Kinds.{
  FaultKind, load, kill_recovery, malformed, connection_flood, network_chaos, name_of,
}
use navin_engine.Runner.{SandboxLimits, ChaosConfig, Wire, Lab, on_machine, observe}
use navin_engine.Runner.Ports.{parse_http_url}
use navin_engine.Shadow.{Shadow, Materials, create, create_with_uncommitted, guarded, destroy_path}

pub record ProofPlan (F : Type 0) : Type 0 where
  pub profile : String
  pub faults : List FaultKind
  pub load_duration : ℕ
  pub load_concurrency : ℕ
  pub max_error_ratio : F
  pub recovery_bound : ℕ
  pub flood_connections : ℕ
  pub flood_hold : ℕ
  pub rss_limit_mb : ℕ  -- u64
  pub chaos : ChaosConfig  -- chaos_delay and chaos_reset_every

pub record ProofTarget : Type 0 where
  pub start_cmd : String
  pub url : String
  pub work_dir : FilePath
  pub ready_timeout : ℕ
  pub limits : Option SandboxLimits

abbrev pub worker_url : String
worker_url = "worker://local"

abbrev pub all_faults : List FaultKind
all_faults = load ∷ malformed ∷ connection_flood ∷ network_chaos ∷ kill_recovery ∷ []

abbrev pub proof_log : FilePath → FilePath
proof_log root = engine_dir root ++ "logs" ∷ "proof-service.log" ∷ []

-- `matches!(fault, Load | KillRecovery)`
abbrev pub needs_no_socket : FaultKind → Bool
needs_no_socket load = true
needs_no_socket kill_recovery = true
needs_no_socket _ = false

abbrev pub applicable : List FaultKind → List FaultKind
applicable faults = filter needs_no_socket faults

abbrev pub skipped_note : FaultKind → String
skipped_note fault = concat (
    "fault `"
    ∷ name_of fault
    ∷ "` skipped: it needs a network socket, which a worker does not have"
    ∷ [])

abbrev pub note_skipped : List FaultKind → List String
note_skipped [] = []
note_skipped (fault ∷ faults) =
    let rest = note_skipped faults in
    if needs_no_socket fault then rest else skipped_note fault ∷ rest

abbrev pub worker_notes : List FaultKind → List String
worker_notes faults =
    "worker target: health = process + health_cmd, load = exercise_cmd" ∷ note_skipped faults

abbrev pub is_local : String → Bool
is_local host = str_eq host "127.0.0.1" || str_eq host "localhost" || str_eq host "::1"

abbrev pub or_default : Result String EvolveConfig → EvolveConfig
or_default (ok config) = config
or_default (err e) = default_config

module _ (fl : F64) where
  open fl use {Carrier, div, of_ℕ}

  abbrev plan_of : String → ℕ → List FaultKind → ℕ → ℕ → ℕ → ProofPlan Carrier
  plan_of profile rss_limit_mb faults duration concurrency connections = record {
    profile = profile;
    faults = faults;
    load_duration = duration * 1000;
    load_concurrency = concurrency;
    max_error_ratio = div (of_ℕ 1) (of_ℕ 100);
    recovery_bound = 15000;
    flood_connections = connections;
    flood_hold = 3000;
    rss_limit_mb = rss_limit_mb;
    chaos = record { delay = 40; reset_every = 5 };
  }

  unfoldable pub for_profile : String → ℕ → ProofPlan Carrier
  for_profile profile rss_limit_mb =
      if str_eq profile "quick"
      then plan_of profile rss_limit_mb (load ∷ kill_recovery ∷ []) 5 16 64
      else if str_eq profile "deep"
      then plan_of profile rss_limit_mb all_faults 30 128 512
      else plan_of profile rss_limit_mb all_faults 12 48 200

module _ {W : Type 0} (fl : F64) (sys : System W) (wire : Wire W fl.Carrier)
    (load_config : FilePath → Exec W String EvolveConfig) where
  open fl use {Carrier}

  unfoldable pub inject :
      Service → ProofPlan Carrier → FaultKind → Exec (Lab W) String (FaultOutcome Carrier)
  inject svc plan load =
      run_load fl wire svc plan.load_duration plan.load_concurrency plan.max_error_ratio
        plan.rss_limit_mb
  inject svc plan malformed = run_malformed fl wire svc
  inject svc plan connection_flood = run_flood fl wire svc plan.flood_connections plan.flood_hold
  inject svc plan network_chaos =
      run_chaos fl wire svc plan.chaos (max (plan.load_duration / 2) 3000) plan.load_concurrency
        plan.max_error_ratio
  inject svc plan kill_recovery =
      run_kill fl wire "could not kill the service: {err:#}" (restart wire svc)
        (λ bound. observe (wait_healthy wire svc bound)) plan.recovery_bound

  unfoldable pub inject_worker :
      Worker → String → ProofPlan Carrier → FaultKind → Exec (Lab W) String (FaultOutcome Carrier)
  inject_worker worker cmd plan load =
      run_worker_load fl sys wire worker cmd plan.load_duration plan.load_concurrency
        plan.max_error_ratio plan.rss_limit_mb
  inject_worker worker cmd plan _ = run_kill_recovery fl sys wire worker plan.recovery_bound

  -- One outcome after the other, in the order of the faults.
  unfoldable pub inject_all :
      (FaultKind → Exec (Lab W) String (FaultOutcome Carrier))
      → List FaultKind
      → List (FaultOutcome Carrier)
      → Exec (Lab W) String (List (FaultOutcome Carrier))
  inject_all injected [] outcomes = pure outcomes
  inject_all injected (fault ∷ faults) outcomes = do
    outcome ← injected fault
    inject_all injected faults (outcomes ++ outcome ∷ [])

  -- Stop the service, and build the report.
  abbrev report_of :
      String
      → String
      → FilePath
      → List String
      → List (FaultOutcome Carrier)
      → Exec (Lab W) String (ProofReport Carrier)
  report_of commit profile work_dir notes outcomes = do
    shutdown wire
    now ← gets (λ (l : Lab W). now_epoch sys l.machine)
    pure (build now commit profile (display work_dir) outcomes notes)

  abbrev pub run_service :
      Service → ProofPlan Carrier → String → Exec (Lab W) String (ProofReport Carrier)
  run_service svc plan commit = do
    start_and_hold wire svc
    healthy ← observe (is_healthy wire svc)
    ensure healthy "service did not answer an initial health probe"
    outcomes ← inject_all (inject svc plan) plan.faults []
    report_of commit plan.profile svc.work_dir [] outcomes

  abbrev pub run_worker :
      Worker → String → ProofPlan Carrier → String → Exec (Lab W) String (ProofReport Carrier)
  run_worker worker cmd plan commit = do
    start_worker fl sys wire worker
    healthy ← is_worker_healthy fl sys wire worker
    ensure healthy "worker did not pass its initial health check"
    outcomes ← inject_all (inject_worker worker cmd plan) (applicable plan.faults) []
    report_of commit plan.profile worker.work_dir (worker_notes plan.faults) outcomes

  -- A run on the machine, with no process at its start.
  abbrev pub in_lab : {A : Type 0} → Exec (Lab W) String A → Exec W String A
  in_lab m w = let r = m (record { machine = w; process = none }) in (r.0, r.1.machine)

  abbrev pub worker_of : FilePath → ProofTarget → EvolveConfig → Worker
  worker_of root target config = record {
    start_cmd = target.start_cmd;
    work_dir = target.work_dir;
    log_path = proof_log root;
    health_cmd = config.target.health_cmd;
    ready_timeout = target.ready_timeout;
    limits = target.limits;
    command_log = engine_dir root ++ "logs" ∷ "proof-service.cmd.log" ∷ [];
    exercise_log = engine_dir root ++ "logs" ∷ "proof-service.exercise.log" ∷ [];
  }

  abbrev pub service_of : FilePath → ProofTarget → EvolveConfig → String × ℕ × String → Service
  service_of root target config address = record {
    start_cmd = target.start_cmd;
    work_dir = target.work_dir;
    log_path = proof_log root;
    host = address.0;
    port = address.1;
    specs = specs_or_get (specs_for config.target address.2);
    ready_timeout = target.ready_timeout;
    limits = target.limits;
  }

  abbrev pub commit_of : FilePath → Bool → Exec W String String
  commit_of root true = head_sha sys root
  commit_of root false = pure "workdir"

  abbrev pub lift : {A : Type 0} → Result String A → Exec W String A
  lift (ok a) = pure a
  lift (err e) = raise e

  abbrev pub run_http :
      FilePath
      → ProofTarget
      → ProofPlan Carrier
      → EvolveConfig
      → String
      → Exec W String (ProofReport Carrier)
  run_http root target plan config commit = do
    address ← lift (parse_http_url target.url)
    ensure (is_local address.0)
        (concat ("proof probes are localhost-only, refusing " ∷ address.0 ∷ []))
    in_lab (run_service (service_of root target config address) plan commit)

  -- `if config.target.is_worker() || target.url == WORKER_URL`
  abbrev pub run_for :
      FilePath
      → ProofTarget
      → ProofPlan Carrier
      → EvolveConfig
      → String
      → Bool
      → Exec W String (ProofReport Carrier)
  run_for root target plan config commit true =
      in_lab (run_worker (worker_of root target config) config.target.exercise_cmd plan commit)
  run_for root target plan config commit false = run_http root target plan config commit

  unfoldable pub run_proof :
      FilePath → ProofTarget → ProofPlan Carrier → Exec W String (ProofReport Carrier)
  run_proof root target plan = do
    repo ← gets (is_repo sys root)
    commit ← commit_of root repo
    loaded ← catch (load_config root)
    let config : EvolveConfig = or_default loaded
    run_for root target plan config commit (is_worker config.target || str_eq target.url worker_url)

  module _ (materials : Materials W) where
    abbrev create_for : FilePath → String → Bool → Exec W String Shadow
    create_for root run_id true = create_with_uncommitted sys materials root run_id
    create_for root run_id false = create sys materials root run_id

    -- The shadow is destroyed before the report is looked at: a failure to destroy it comes first.
    unfoldable pub run_proof_in_shadow :
        FilePath
        → String
        → String
        → String
        → ProofPlan Carrier
        → ℕ
        → Option SandboxLimits
        → Bool
        → Exec W String (ProofReport Carrier)
    run_proof_in_shadow root run_id start_cmd url plan ready_timeout limits include_uncommitted = do
      shadow ← create_for root run_id include_uncommitted
      proved ← guarded sys root shadow (λ path. catch (
          run_proof root
            (record {
              start_cmd = start_cmd;
              url = url;
              work_dir = path;
              ready_timeout = ready_timeout;
              limits = limits;
            })
            plan))
      lift proved
