-- ===== src/Proof/Worker.antt =====
-- src/proof/worker.rs: the proof of a target that has no port. It is healthy while its process is
-- alive and its health command ends with code 0; its load is a command run in parallel loops.
use navin_engine.Prelude.{
  ℕ, zero, suc, ◌+◌, ◌/◌, min, max, String, Bool, true, false, not, ◌&&◌, Option, none, some, List,
  [], ◌∷◌, ◌++◌, length, ltb, if◌then◌else◌, Result, ok, err, Exec, pure, raise, ◌>>=◌, ◌>>◌,
}
use navin_engine.Prelude.Text.{concat, show, trim, is_blank}
use navin_engine.Prelude.Reals.{F64}
use navin_engine.System.{System, always, catch, gets, attempt, command_ok}
use navin_engine.System.Path.{FilePath}
use navin_engine.Baseline.{percentile}
use navin_engine.Optimize.Model.{LatencyStats}
use navin_engine.Proof.{CheckResult, FaultOutcome, new_fault, with_evidence}
use navin_engine.Proof.Checks.{no_crash, error_rate, resource_bound}
use navin_engine.Proof.Service.{kill, hold}
use navin_engine.Proof.Faults.{peak_of, run_kill, u64}
use navin_engine.Runner.{SandboxLimits, Wire, Lab, on_machine, observe}
use navin_engine.Runner.Poll.{wait_until}

pub record Worker : Type 0 where
  pub start_cmd : String
  pub work_dir : FilePath
  pub log_path : FilePath
  pub health_cmd : String
  pub ready_timeout : ℕ
  pub limits : Option SandboxLimits
  -- `log_path` with the extension `cmd.log` and `exercise.log`
  pub command_log : FilePath
  pub exercise_log : FilePath

abbrev is_alive : Result String (Option ℕ) → Bool
is_alive (ok none) = true
is_alive (ok (some code)) = false
is_alive (err e) = false

-- `clamp(1, 8)`
abbrev pub loops : ℕ → ℕ
loops concurrency = min 8 (max 1 concurrency)

module _ {W : Type 0} (fl : F64) (sys : System W) (wire : Wire W fl.Carrier) where
  open fl use {Carrier, lt, mul, div, of_ℕ, round}
  open wire use {now, sleep, spawn, try_exit_code, tail, exercise}

  abbrev exited : Worker → ℕ → Exec W String Unit
  exited worker code = do
    evidence ← gets (tail worker.log_path 30)
    raise (
        concat (
          "worker exited with code "
          ∷ show code
          ∷ " right after start\n--- log tail ---\n"
          ∷ evidence
          ∷ []))

  abbrev in_grace : Worker → Option ℕ → Exec W String Unit → Exec W String Unit
  in_grace worker none again = again
  in_grace worker (some code) again = exited worker code

  -- The time of grace: an exit within it is a failure to start. A pause takes a millisecond at
  -- least, so as many rounds as the grace has milliseconds are enough.
  unfoldable pub grace : Worker → ℕ → ℕ → ℕ → Exec W String Unit
  grace worker pid zero deadline = pure tt
  grace worker pid (suc fuel) deadline = do
    t ← gets now
    let again : Exec W String Unit = (do
      always (λ (w : W). (tt {0}, sleep 100 w))
      grace worker pid fuel deadline)
    if ltb t deadline then (do code ← try_exit_code pid; in_grace worker code again) else pure tt

  -- `start`: the process is held only when it has outlived the grace.
  unfoldable pub start_worker : Worker → Exec (Lab W) String Unit
  unfolding grace
  start_worker worker = do
    pid ← on_machine (spawn worker.start_cmd worker.work_dir worker.log_path worker.limits)
    begun ← gets (λ (l : Lab W). now l.machine)
    let time : ℕ = min 3000 worker.ready_timeout
    on_machine (grace worker pid (suc time) (begun + time))
    always (hold wire pid)

  unfoldable pub restart_worker : Worker → Exec (Lab W) String Unit
  unfolding start_worker
  restart_worker worker = do attempt (kill wire); start_worker worker

  abbrev alive_now : Option ℕ → Exec (Lab W) String Bool
  alive_now none = pure false
  alive_now (some pid) = do code ← catch (on_machine (try_exit_code pid)); pure (is_alive code)

  unfoldable pub is_worker_healthy : Worker → Exec (Lab W) String Bool
  is_worker_healthy worker = do
    pid ← gets (λ (l : Lab W). l.process)
    alive ← alive_now pid
    if alive && not (is_blank (trim worker.health_cmd))
        then on_machine (command_ok sys worker.health_cmd worker.work_dir worker.command_log 30)
        else pure alive

  -- The answer to a question that can not fail.
  abbrev answer : Result String Bool × Lab W → Bool × Lab W
  answer (ok b, l) = (b, l)
  answer (err e, l) = (false, l)

  abbrev wait_worker : Worker → ℕ → Lab W → Option ℕ × Lab W
  wait_worker worker =
      wait_until (λ (l : Lab W). now l.machine)
        (λ (l : Lab W). record l { machine = sleep 100 l.machine })
        (λ l. answer (is_worker_healthy worker l))

  abbrev insert_sample : Carrier → List Carrier → List Carrier
  insert_sample x [] = x ∷ []
  insert_sample x (y ∷ ys) =
      let rest = insert_sample x ys in if lt y x then y ∷ rest else x ∷ y ∷ ys

  -- `sort_by(partial_cmp)`, of durations
  abbrev pub sort_samples : List Carrier → List Carrier
  sort_samples [] = []
  sort_samples (x ∷ xs) = insert_sample x (sort_samples xs)

  abbrev pub round1 : Carrier → Carrier
  round1 v = div (round (mul v (of_ℕ 10))) (of_ℕ 10)

  abbrev hundredth : ℕ → Carrier
  hundredth n = div (of_ℕ n) (of_ℕ 100)

  abbrev at_least : Carrier → Carrier → Carrier
  at_least bound x = if lt x bound then bound else x

  unfoldable pub exercise_stats_of : ℕ → List Carrier → ℕ → LatencyStats Carrier
  unfolding percentile
  exercise_stats_of duration samples failures =
      let sorted = sort_samples samples in
      record {
        requests = length sorted;
        failures = failures;
        p50_ms = round1 (percentile fl sorted (hundredth 50));
        p95_ms = round1 (percentile fl sorted (hundredth 95));
        p99_ms = round1 (percentile fl sorted (hundredth 99));
        rps = round1 (
            div (of_ℕ (length sorted))
              (at_least (div (of_ℕ 1) (of_ℕ 1000)) (div (of_ℕ duration) (of_ℕ 1000))));
      }

  unfoldable pub exercise_stats :
      String → FilePath → FilePath → ℕ → ℕ → W → LatencyStats Carrier × W
  unfolding exercise_stats_of
  exercise_stats cmd dir log duration concurrency w =
      let r = exercise cmd dir log duration (loops concurrency) w in
      (exercise_stats_of duration r.0.0 r.0.1, r.1)

  abbrev exercised : Worker → String → ℕ → ℕ → W → Option (LatencyStats Carrier) × W
  exercised worker cmd duration concurrency w =
      if is_blank (trim cmd)
      then (none, sleep duration w)
      else let r = exercise_stats cmd worker.work_dir worker.exercise_log duration concurrency w in
        (some r.0, r.1)

  abbrev load_check : Option (LatencyStats Carrier) → Carrier → List (CheckResult Carrier)
  load_check none max_error_ratio = []
  load_check (some stats) max_error_ratio =
      error_rate fl stats.failures (u64 fl wire (stats.requests + stats.failures)) max_error_ratio
      ∷ []

  abbrev worker_evidence : Option (LatencyStats Carrier) → String
  worker_evidence (some stats) = concat (
      show stats.requests
      ∷ " runs, p95 "
      ∷ wire.formats.show_real stats.p95_ms
      ∷ " ms, p99 "
      ∷ wire.formats.show_real stats.p99_ms
      ∷ " ms, "
      ∷ wire.formats.show_real stats.rps
      ∷ " runs/s"
      ∷ [])
  worker_evidence none =
      "no exercise_cmd configured: observed idle stability only ([target] exercise_cmd unlocks a measured load)"

  abbrev worker_load : String → ℕ → ℕ → String
  worker_load cmd duration concurrency =
      if is_blank (trim cmd)
      then concat ("watched for " ∷ show (duration / 1000) ∷ "s without exercising" ∷ [])
      else concat (
          show (loops concurrency)
          ∷ " concurrent exercise loops for "
          ∷ show (duration / 1000)
          ∷ "s"
          ∷ [])

  unfoldable pub run_worker_load :
      Worker → String → ℕ → ℕ → Carrier → ℕ → Exec (Lab W) String (FaultOutcome Carrier)
  unfolding exercise_stats is_worker_healthy
  run_worker_load worker cmd duration concurrency max_error_ratio rss_limit_mb = do
    pid ← gets (λ (l : Lab W). l.process)
    stats ← observe (exercised worker cmd duration concurrency)
    peak ← observe (peak_of fl wire pid duration)
    alive ← is_worker_healthy worker
    pure (
        with_evidence
          (new_fault "load" (worker_load cmd duration concurrency) (
            no_crash fl alive ∷ load_check stats max_error_ratio
            ++ resource_bound fl peak rss_limit_mb ∷ []))
          (worker_evidence stats ∷ []))

  unfoldable pub run_kill_recovery : Worker → ℕ → Exec (Lab W) String (FaultOutcome Carrier)
  unfolding restart_worker
  run_kill_recovery worker =
      run_kill fl wire "could not kill the worker: {err:#}" (restart_worker worker)
        (λ bound. always (wait_worker worker bound))
