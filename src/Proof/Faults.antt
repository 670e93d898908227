-- ===== src/Proof/Faults.antt =====
-- src/proof/faults/: what each fault does to the service, and the checks that it makes.
pub mod Kinds
pub mod Named
use Prim.Native.String as Str
use navin_engine.Prelude.{
  ℕ, zero, suc, ◌+◌, ◌*◌, ◌/◌, ◌%◌, ◌^◌, min, max, String, Bool, true, false, Option, none, some,
  List, [], ◌∷◌, length, ltb, if◌then◌else◌, Result, ok, err, Exec, pure, ◌>>=◌, ◌>>◌, fmt, str,
  num,
}
use navin_engine.Prelude.Text.{concat, show}
use navin_engine.Prelude.Reals.{F64}
use navin_engine.System.{catch, gets}
use navin_engine.Optimize.Model.{LatencyStats}
use navin_engine.Proof.{
  Verdict, pass, weak, fail, CheckResult, new_check, FaultOutcome, new_fault, with_evidence,
}
use navin_engine.Proof.Checks.{no_crash, recovery, error_rate, resource_bound}
use navin_engine.Proof.Service.{Service, kill, restart, is_healthy, wait_healthy}
use navin_engine.Runner.{Wire, Lab, on_machine, observe, act, ChaosConfig, ChaosCounters}

-- `unwrap_or(0)`, in bytes, to megabytes
abbrev pub megabytes : Option ℕ → ℕ
megabytes none = 0
megabytes (some bytes) = bytes / (1024 * 1024)

abbrev repeated : ℕ → String → String
repeated zero s = ""
repeated (suc n) s = Str.◌++◌ s (repeated n s)

-- Garbage, a request cut short, a method and version that do not exist, a header too long
abbrev pub payloads : List String
payloads =
    "\0\u{1}\u{2} not http at all\r\n\r\n"
    ∷ "GET / HTTP/1.1\r\n"
    ∷ "PWNZ / HTTP/9.9\r\nHost: x\r\n\r\n"
    ∷ concat ("GET / HTTP/1.1\r\nX-Flood: " ∷ repeated (64 * 1024) "A" ∷ "\r\n\r\n" ∷ [])
    ∷ []

module _ {W : Type 0} (fl : F64) (wire : Wire W fl.Carrier) where
  open fl use {Carrier, div, of_ℕ}
  open wire use {
    sleep, probe_specs, rss_peak, open_half, drop_held, send_raw, start_proxy, stop_proxy,
  }

  -- `as_secs_f64`
  abbrev pub secs : ℕ → Carrier
  secs ms = div (of_ℕ ms) (of_ℕ 1000)

  -- The sampler runs beside the load, if there is a process to sample.
  abbrev pub peak_of : Option ℕ → ℕ → W → ℕ × W
  peak_of none duration w = (0, w)
  peak_of (some pid) duration w = let r = rss_peak pid duration w in (megabytes r.0, r.1)

  abbrev pub u64 : ℕ → ℕ
  u64 n = n % 2 ^ 64

  abbrev pub load_evidence : LatencyStats Carrier → String
  load_evidence stats = concat (
      show stats.requests
      ∷ " req, p95 "
      ∷ wire.formats.show_real stats.p95_ms
      ∷ " ms, p99 "
      ∷ wire.formats.show_real stats.p99_ms
      ∷ " ms, "
      ∷ wire.formats.show_real stats.rps
      ∷ " rps"
      ∷ [])

  abbrev load_outcome : LatencyStats Carrier → ℕ → Bool → ℕ → ℕ → Carrier → ℕ → FaultOutcome Carrier
  load_outcome stats peak alive duration concurrency max_error_ratio rss_limit_mb =
      with_evidence
        (new_fault "load"
          (concat
            (show concurrency ∷ " concurrent clients for " ∷ show (duration / 1000) ∷ "s" ∷ []))
          (no_crash fl alive
            ∷ error_rate fl stats.failures (u64 (stats.requests + stats.failures)) max_error_ratio
            ∷ resource_bound fl peak rss_limit_mb
            ∷ []))
        (load_evidence stats ∷ [])

  -- load.rs
  unfoldable pub run_load :
      Service → ℕ → ℕ → Carrier → ℕ → Exec (Lab W) String (FaultOutcome Carrier)
  run_load svc duration concurrency max_error_ratio rss_limit_mb = do
    pid ← gets (λ (l : Lab W). l.process)
    stats ← observe (probe_specs svc.host svc.port svc.specs duration concurrency)
    peak ← observe (peak_of pid duration)
    alive ← observe (is_healthy wire svc)
    pure (load_outcome stats peak alive duration concurrency max_error_ratio rss_limit_mb)

  abbrev send_all : String → ℕ → List String → W → W
  send_all host port [] w = w
  send_all host port (p ∷ ps) w = send_all host port ps (send_raw host port p w)

  -- malformed.rs
  unfoldable pub run_malformed : Service → Exec (Lab W) String (FaultOutcome Carrier)
  run_malformed svc = do
    act (send_all svc.host svc.port payloads)
    alive ← observe (is_healthy wire svc)
    pure (
        with_evidence
          (new_fault "malformed" "garbage, truncated, bogus-version and oversized requests"
            (no_crash fl alive ∷ []))
          (concat (show (length payloads) ∷ " malformed requests sent" ∷ []) ∷ []))

  -- The flood ends at the first connection that does not come up.
  unfoldable pub open_many : String → ℕ → ℕ → ℕ → W → ℕ × W
  open_many host port zero opened w = (opened, w)
  open_many host port (suc n) opened w = elim (open_half host port w).0 [
    | true ↦ open_many host port n (suc opened) (open_half host port w).1
    | false ↦ (opened, (open_half host port w).1)
  ]

  abbrev during_flood : Bool → CheckResult Carrier
  during_flood true =
      new_check "reachable_under_flood" pass (fmt "served a client during the flood" [])
  during_flood false = new_check "reachable_under_flood" weak (fmt "unreachable while flooded" [])

  -- flood.rs
  unfoldable pub run_flood : Service → ℕ → ℕ → Exec (Lab W) String (FaultOutcome Carrier)
  unfolding open_many
  run_flood svc connections hold = do
    opened ← observe (open_many svc.host svc.port connections 0)
    reachable ← observe (is_healthy wire svc)
    act (sleep hold)
    act drop_held
    act (sleep 300)
    alive ← observe (is_healthy wire svc)
    pure (
        with_evidence
          (new_fault "connection_flood"
            (concat
              (show opened ∷ " half-open connections held for " ∷ show (hold / 1000) ∷ "s" ∷ []))
            (during_flood reachable ∷ no_crash fl alive ∷ []))
          (concat (show opened ∷ "/" ∷ show connections ∷ " connections opened" ∷ []) ∷ []))

  abbrev failed_with : String → String → String → String → String → FaultOutcome Carrier
  failed_with fault description check outer e =
      new_fault fault description (new_check check fail (fmt outer (str e ∷ [])) ∷ [])

  abbrev served_check : LatencyStats Carrier → CheckResult Carrier
  served_check stats =
      new_check "served_under_chaos" (if ltb 0 stats.requests then pass else fail) (
        fmt "{} requests completed through the degraded wire ({} failed)"
          (num stats.requests ∷ num stats.failures ∷ []))

  abbrev chaos_outcome :
      String
      → ChaosCounters
      → LatencyStats Carrier
      → Bool
      → LatencyStats Carrier
      → Carrier
      → FaultOutcome Carrier
  chaos_outcome description counters chaos alive direct max_error_ratio =
      with_evidence
        (new_fault "network_chaos" description (
          no_crash fl alive
          ∷ served_check chaos
          ∷ error_rate fl direct.failures (u64 (direct.requests + direct.failures)) max_error_ratio
          ∷ []))
        (concat (
            "proxied "
            ∷ show counters.connections
            ∷ " connections, injected "
            ∷ show counters.resets
            ∷ " resets"
            ∷ [])
          ∷ concat (
              "under chaos: "
              ∷ show chaos.requests
              ∷ " req, p95 "
              ∷ wire.formats.show_real chaos.p95_ms
              ∷ " ms; after chaos: p95 "
              ∷ wire.formats.show_real direct.p95_ms
              ∷ " ms, "
              ∷ wire.formats.show_real direct.rps
              ∷ " rps"
              ∷ [])
          ∷ [])

  abbrev through_proxy :
      Service
      → String
      → ℕ
      → ℕ
      → Carrier
      → Result String ℕ
      → Exec (Lab W) String (FaultOutcome Carrier)
  through_proxy svc description duration concurrency max_error_ratio (err e) = pure (
      failed_with "network_chaos" description "proxy_started" "chaos proxy could not start: {err:#}"
        e)
  through_proxy svc description duration concurrency max_error_ratio (ok proxy_port) = do
    chaos ← observe (probe_specs svc.host proxy_port svc.specs duration concurrency)
    counters ← observe stop_proxy
    alive ← observe (is_healthy wire svc)
    direct ← observe (probe_specs svc.host svc.port svc.specs 2000 (min concurrency 8))
    pure (chaos_outcome description counters chaos alive direct max_error_ratio)

  -- netchaos.rs
  unfoldable pub run_chaos :
      Service → ChaosConfig → ℕ → ℕ → Carrier → Exec (Lab W) String (FaultOutcome Carrier)
  run_chaos svc config duration concurrency max_error_ratio = do
    started ← catch (on_machine (start_proxy svc.host svc.port config))
    through_proxy svc
        (concat (
          "+"
          ∷ show config.delay
          ∷ "ms latency, 1/"
          ∷ show (max config.reset_every 1)
          ∷ " connections reset, "
          ∷ show (duration / 1000)
          ∷ "s under load"
          ∷ []))
        duration concurrency max_error_ratio started

  abbrev pub kill_fault : String → CheckResult Carrier → FaultOutcome Carrier
  kill_fault description check = new_fault "kill_recovery" description (check ∷ [])

  abbrev pub recovery_in : ℕ → Option ℕ → FaultOutcome Carrier
  recovery_in bound (some elapsed) =
      kill_fault "hard-kill then restart" (recovery fl true (secs elapsed) (secs bound))
  recovery_in bound none =
      kill_fault "hard-kill then restart" (recovery fl false (secs bound) (secs bound))

  abbrev after_restart :
      (ℕ → Exec (Lab W) String (Option ℕ))
      → ℕ
      → Result String Unit
      → Exec (Lab W) String (FaultOutcome Carrier)
  after_restart wait bound (err e) =
      pure (
        failed_with "kill_recovery" "hard-kill then restart" "recovery" "restart failed: {err:#}" e)
  after_restart wait bound (ok _) = do elapsed ← wait bound; pure (recovery_in bound elapsed)

  abbrev after_kill :
      String
      → Exec (Lab W) String Unit
      → (ℕ → Exec (Lab W) String (Option ℕ))
      → ℕ
      → Result String Unit
      → Exec (Lab W) String (FaultOutcome Carrier)
  after_kill outer again wait bound (err e) =
      pure (failed_with "kill_recovery" "hard-kill then restart" "kill" outer e)
  after_kill outer again wait bound (ok _) = do
    restarted ← catch again
    after_restart wait bound restarted

  -- kill.rs, and `run_kill_recovery` of worker.rs, which differs in what it calls
  unfoldable pub run_kill :
      String
      → Exec (Lab W) String Unit
      → (ℕ → Exec (Lab W) String (Option ℕ))
      → ℕ
      → Exec (Lab W) String (FaultOutcome Carrier)
  run_kill outer again wait bound = do
    killed ← catch (kill wire)
    after_kill outer again wait bound killed
