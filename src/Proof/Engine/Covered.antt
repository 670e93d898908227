-- ===== src/Proof/Engine/Covered.antt =====
-- src/proof/engine.rs: what the report of a proof covers.
use navin_engine.Prelude.{ℕ, String, ◌≡◌, true, List, [], ◌∷◌, map, ok, Exec, Returns}
use navin_engine.Prelude.Reals.{F64}
use navin_engine.System.{System}
use navin_engine.System.Path.{FilePath, display}
use navin_engine.Policy.{EvolveConfig}
use navin_engine.Proof.{FaultOutcome, ProofReport}
use navin_engine.Proof.Service.{Service}
use navin_engine.Proof.Worker.{Worker}
use navin_engine.Proof.Faults.Kinds.{FaultKind, name_of}
use navin_engine.Proof.Faults.Named.{Named}
use navin_engine.Proof.Engine.{ProofPlan, ProofTarget, applicable, is_local, worker_notes}
use navin_engine.Runner.{Wire, Lab}
use navin_engine.Runner.Ports.{parse_http_url}

abbrev pub names : {F : Type 0} → List (FaultOutcome F) → List String
names {F} os = map (λ (o : FaultOutcome F). o.fault) os

-- A report on the faults of that list, in that order, with those notes.
pub record Reports {F : Type 0} (profile : String) (dir : FilePath) (faults : List FaultKind)
    (notes : List String) (r : ProofReport F) : Type 0 where
  pub profiled : r.profile ≡ profile
  pub measured : r.measured_in ≡ display dir
  pub covered : names r.faults ≡ map name_of faults
  pub noted : r.notes ≡ notes

-- A service is proved on the local host only, with every fault of the plan; a worker with those
-- that need no socket, the others being noted.
pub data Covered {F : Type 0} (target : ProofTarget) (plan : ProofPlan F) (r : ProofReport F)
    : Type 0 where
  on_service :
      (address : String × ℕ × String)
      → parse_http_url target.url ≡ ok address
      → is_local address.0 ≡ true
      → Reports plan.profile target.work_dir plan.faults [] r
      → Covered target plan r
  on_worker :
      Reports plan.profile target.work_dir (applicable plan.faults) (worker_notes plan.faults) r
      → Covered target plan r

module _ {W : Type 0} (fl : F64) (sys : System W) (wire : Wire W fl.Carrier)
    (load_config : FilePath → Exec W String EvolveConfig) where
  abbrev AllNamed :
      (FaultKind → Exec (Lab W) String (FaultOutcome fl.Carrier)) → List FaultKind → Type 0
  AllNamed injected [] = Unit
  AllNamed injected (fault ∷ faults) =
      Returns (Named fl wire (name_of fault)) (injected fault) × AllNamed injected faults
