-- ===== src/Runner.antt =====
-- src/runner/: the processes and sockets that a proof uses. What they do is an argument, a record
-- over the type `W` of the machine's states; times are in milliseconds.
pub mod Ports
pub mod Poll
use navin_engine.Prelude.{ℕ, String, Bool, List, Option, none, some, Exec, Formats}
use navin_engine.Prelude.Reals.{F64}
use navin_engine.System.{always}
use navin_engine.System.Path.{FilePath}
use navin_engine.Baseline.{ProbeSpec}
use navin_engine.Optimize.Model.{LatencyStats}

-- src/shadow/sandbox.rs
pub record SandboxLimits : Type 0 where
  pub max_memory_mb : ℕ  -- u64
  pub max_runtime_secs : ℕ  -- u64

-- src/proof/faults/netchaos.rs
pub record ChaosConfig : Type 0 where
  pub delay : ℕ
  pub reset_every : ℕ  -- u64

pub record ChaosCounters : Type 0 where
  pub connections : ℕ
  pub resets : ℕ

pub record Wire (W F : Type 0) : Type 0 where
  pub now : W → ℕ
  pub sleep : ℕ → W → W
  -- `SupervisedProcess::spawn`, `try_exit_code` and `kill_tree`, by the number of the process
  pub spawn : String → FilePath → FilePath → Option SandboxLimits → Exec W String ℕ
  pub try_exit_code : ℕ → Exec W String (Option ℕ)
  pub kill_tree : ℕ → Exec W String Unit
  pub tail : FilePath → ℕ → W → String
  -- `start_service`: the process of the service that opened the port in time
  pub start_service : String → FilePath → FilePath → ℕ → ℕ → Option SandboxLimits → Exec W String ℕ
  pub port_open : String → ℕ → W → Bool × W
  pub request_once : String → ℕ → ProbeSpec → Exec W String F
  pub probe_specs : String → ℕ → List ProbeSpec → ℕ → ℕ → W → LatencyStats F × W
  -- the timed runs of a command in parallel loops, and the number of those that failed
  pub exercise : String → FilePath → FilePath → ℕ → ℕ → W → (List F × ℕ) × W
  -- the most bytes that the process had while the fault ran, if the sampler returned
  pub rss_peak : ℕ → ℕ → W → Option ℕ × W
  -- one connection that sends half a request and stays open; and all of them dropped
  pub open_half : String → ℕ → W → Bool × W
  pub drop_held : W → W
  pub send_raw : String → ℕ → String → W → W
  pub start_proxy : String → ℕ → ChaosConfig → Exec W String ℕ
  pub stop_proxy : W → ChaosCounters × W
  pub formats : Formats F

-- The machine, and the process that a manager holds.
pub record Lab (W : Type 0) : Type 0 where
  pub machine : W
  pub process : Option ℕ

module _ {W A : Type 0} where
  abbrev pub on_machine : Exec W String A → Exec (Lab W) String A
  on_machine m l = let r = m l.machine in (r.0, record l { machine = r.1 })

  -- What can not fail.
  abbrev pub observe : (W → A × W) → Exec (Lab W) String A
  observe f = on_machine (always f)

abbrev pub act : {W : Type 0} → (W → W) → Exec (Lab W) String Unit
act f = observe (λ w. (tt, f w))
