-- ===== src/Proof/Faults/Named.antt =====
-- src/proof/faults/ and src/proof/worker.rs: the outcome of each fault carries its name.
use navin_engine.Prelude.{
  ℕ, String, ◌≡◌, refl, Option, none, some, Result, ok, err, Exec, Returns, Returns-pure,
  Returns-bind,
}
use navin_engine.Prelude.Reals.{F64}
use navin_engine.System.{System}
use navin_engine.Proof.{FaultOutcome, with_evidence, new_fault}
use navin_engine.Proof.Service.{Service}
use navin_engine.Proof.Worker.{Worker, run_worker_load, run_kill_recovery}
use navin_engine.Proof.Faults.{
  run_load, run_malformed, run_flood, through_proxy, run_chaos, recovery_in, after_restart,
  after_kill, run_kill,
}
use navin_engine.Runner.{Wire, Lab, ChaosConfig}

module _ {W : Type 0} (fl : F64) (wire : Wire W fl.Carrier) where
  abbrev pub Named : String → FaultOutcome fl.Carrier → Type 0
  Named name o = o.fault ≡ name

  pub run_load-Named :
      (svc : Service) (d c : ℕ) (m : fl.Carrier) (l : ℕ)
      → Returns (Named "load") (run_load fl wire svc d c m l)
  unfolding run_load with_evidence new_fault
  run_load-Named svc d c m l = Returns-bind _ _ (λ pid.
      Returns-bind _ _
        (λ stats. Returns-bind _ _ (λ peak. Returns-bind _ _ (λ alive. Returns-pure _ refl))))

  pub run_malformed-Named :
      (svc : Service) → Returns (Named "malformed") (run_malformed fl wire svc)
  unfolding run_malformed with_evidence new_fault
  run_malformed-Named svc =
      Returns-bind _ _ (λ sent. Returns-bind _ _ (λ alive. Returns-pure _ refl))

  pub run_flood-Named :
      (svc : Service) (n hold : ℕ)
      → Returns (Named "connection_flood") (run_flood fl wire svc n hold)
  unfolding run_flood with_evidence new_fault
  run_flood-Named svc n hold = Returns-bind _ _ (λ opened. Returns-bind _ _ (λ reachable.
      Returns-bind _ _ (λ slept.
        Returns-bind _ _ (λ dropped.
          Returns-bind _ _ (λ rested. Returns-bind _ _ (λ alive. Returns-pure _ refl))))))

  through_proxy-Named :
      (svc : Service) (s : String) (d c : ℕ) (m : fl.Carrier) (r : Result String ℕ)
      → Returns (Named "network_chaos") (through_proxy fl wire svc s d c m r)
  unfolding with_evidence new_fault
  through_proxy-Named svc s d c m (err e) = Returns-pure _ refl
  through_proxy-Named svc s d c m (ok port) = Returns-bind _ _ (λ chaos.
      Returns-bind _ _
        (λ counters. Returns-bind _ _ (λ alive. Returns-bind _ _ (λ direct. Returns-pure _ refl))))

  pub run_chaos-Named :
      (svc : Service) (config : ChaosConfig) (d c : ℕ) (m : fl.Carrier)
      → Returns (Named "network_chaos") (run_chaos fl wire svc config d c m)
  unfolding run_chaos
  run_chaos-Named svc config d c m =
      Returns-bind _ _ (λ started. through_proxy-Named svc _ d c m started)

  recovery_in-Named :
      (bound : ℕ) (t : Option ℕ) → Named "kill_recovery" (recovery_in fl wire bound t)
  unfolding new_fault
  recovery_in-Named bound none = refl
  recovery_in-Named bound (some t) = refl

  after_restart-Named :
      (wait : ℕ → Exec (Lab W) String (Option ℕ)) (bound : ℕ) (r : Result String Unit)
      → Returns (Named "kill_recovery") (after_restart fl wire wait bound r)
  unfolding new_fault
  after_restart-Named wait bound (err e) = Returns-pure _ refl
  after_restart-Named wait bound (ok u) =
      Returns-bind _ _ (λ elapsed. Returns-pure _ (recovery_in-Named bound elapsed))

  after_kill-Named :
      (outer : String) (again : Exec (Lab W) String Unit)
      (wait : ℕ → Exec (Lab W) String (Option ℕ)) (bound : ℕ) (r : Result String Unit)
      → Returns (Named "kill_recovery") (after_kill fl wire outer again wait bound r)
  unfolding new_fault
  after_kill-Named outer again wait bound (err e) = Returns-pure _ refl
  after_kill-Named outer again wait bound (ok u) =
      Returns-bind _ _ (λ restarted. after_restart-Named wait bound restarted)

  pub run_kill-Named :
      (outer : String) (again : Exec (Lab W) String Unit)
      (wait : ℕ → Exec (Lab W) String (Option ℕ)) (bound : ℕ)
      → Returns (Named "kill_recovery") (run_kill fl wire outer again wait bound)
  unfolding run_kill
  run_kill-Named outer again wait bound =
      Returns-bind _ _ (λ killed. after_kill-Named outer again wait bound killed)

  module _ (sys : System W) where
    pub run_worker_load-Named :
        (worker : Worker) (cmd : String) (d c : ℕ) (m : fl.Carrier) (l : ℕ)
        → Returns (Named "load") (run_worker_load fl sys wire worker cmd d c m l)
    unfolding run_worker_load with_evidence new_fault
    run_worker_load-Named worker cmd d c m l = Returns-bind _ _ (λ pid.
        Returns-bind _ _
          (λ stats. Returns-bind _ _ (λ peak. Returns-bind _ _ (λ alive. Returns-pure _ refl))))

    pub run_kill_recovery-Named :
        (worker : Worker) (bound : ℕ)
        → Returns (Named "kill_recovery") (run_kill_recovery fl sys wire worker bound)
    unfolding run_kill_recovery
    run_kill_recovery-Named worker bound = run_kill-Named _ _ _ bound
