-- ===== src/Proof/Service.antt =====
-- src/proof/service.rs: the service under proof, started, killed and asked for its health.
use navin_engine.Prelude.{
  ℕ, suc, String, Bool, true, false, Option, none, some, List, [], ◌∷◌, Result, ok, err, Exec, pure,
  ◌>>=◌, ◌>>◌,
}
use navin_engine.System.{attempt, always}
use navin_engine.System.Path.{FilePath}
use navin_engine.Baseline.{ProbeSpec}
use navin_engine.Runner.{SandboxLimits, Wire, Lab, on_machine}
use navin_engine.Runner.Poll.{poll, wait_until, time_of}

-- The first request doubles as the health check.
pub record Service : Type 0 where
  pub start_cmd : String
  pub work_dir : FilePath
  pub log_path : FilePath
  pub host : String
  pub port : ℕ  -- u16
  pub specs : List ProbeSpec
  pub ready_timeout : ℕ
  pub limits : Option SandboxLimits

abbrev pub plain_get : ProbeSpec
plain_get = record { method = "GET"; path = "/"; headers = []; body = "" }

-- `ServiceManager::new` never keeps an empty list of requests.
abbrev pub specs_or_get : List ProbeSpec → List ProbeSpec
specs_or_get [] = plain_get ∷ []
specs_or_get (spec ∷ specs) = spec ∷ specs

-- `specs[0]` of a list that is not empty
abbrev pub first_spec : List ProbeSpec → ProbeSpec
first_spec [] = plain_get
first_spec (spec ∷ specs) = spec

abbrev pub is_fine : {A : Type 0} → Result String A → Bool
is_fine (ok a) = true
is_fine (err e) = false

module _ {W F : Type 0} (wire : Wire W F) where
  open wire use {now, sleep, start_service, port_open, request_once}

  -- `kill` of either manager: the process is given up first, and then killed.
  abbrev kill_held : Option ℕ → Exec (Lab W) String Unit
  kill_held none = pure tt
  kill_held (some pid) = on_machine (wire.kill_tree pid)

  abbrev take_process : Lab W → Option ℕ × Lab W
  take_process l = (l.process, record l { process = none })

  abbrev pub hold : ℕ → Lab W → Unit {0} × Lab W
  hold pid l = (tt, record l { process = some pid })

  unfoldable pub kill : Exec (Lab W) String Unit
  kill = do held ← always take_process; kill_held held

  -- `start` returns the time that the start took, which no proof reads.
  unfoldable pub start_and_hold : Service → Exec (Lab W) String Unit
  start_and_hold svc = do
    pid ← on_machine (
        start_service svc.start_cmd svc.work_dir svc.log_path svc.port svc.ready_timeout svc.limits)
    always (hold pid)

  unfoldable pub restart : Service → Exec (Lab W) String Unit
  unfolding kill start_and_hold
  restart svc = do attempt kill; start_and_hold svc

  unfoldable pub is_healthy : Service → W → Bool × W
  is_healthy svc w =
      let r = request_once svc.host svc.port (first_spec svc.specs) w in (is_fine r.0, r.1)

  abbrev wait_for_port : String → ℕ → ℕ → W → Option ℕ × W
  wait_for_port host port = wait_until now (sleep 100) (port_open host port)

  abbrev healthy_after : Service → ℕ → ℕ → Option ℕ × W → Option ℕ × W
  healthy_after svc started bound (none, w) = (none, w)
  healthy_after svc started bound (some _, w) =
      let r = poll now (sleep 100) (is_healthy svc) (suc bound) started bound w in
      (time_of now (sleep 100) (is_healthy svc) r.0, r.1)

  unfoldable pub wait_healthy : Service → ℕ → W → Option ℕ × W
  unfolding is_healthy
  wait_healthy svc bound w =
      healthy_after svc (now w) bound (wait_for_port svc.host svc.port bound w)

  unfoldable pub shutdown : Exec (Lab W) String Unit
  shutdown = do attempt kill; pure tt
