-- ===== src/Diagnose/Rules.antt =====
-- src/diagnose/rules.rs and src/diagnose/engine.rs: from a symptom, and the signals of the log
-- that explain it, to a finding; and from a proof to its diagnosis.

use navin_engine.Prelude.{String, Option, none, some, List, [], ◌∷◌, ◌++◌}
use navin_engine.Prelude.Text.{concat}
use navin_engine.Diagnose.{
  critical, high, medium, Confidence, high_confidence, medium_confidence, Finding,
}
use navin_engine.Diagnose.Symptoms.{
  SymptomKind, crash_after_fault, no_recovery, slow_recovery, high_error_rate, memory_overshoot,
  tail_latency_spike, Symptom,
}
use navin_engine.Diagnose.LogScan.{SignalHit, find_hit}

abbrev pub crash_ids : List String
crash_ids = "rust_panic" ∷ "py_exception" ∷ "segfault" ∷ "uncaught" ∷ []

abbrev pub related_signal_ids : SymptomKind → List String
related_signal_ids crash_after_fault = crash_ids
related_signal_ids no_recovery = "port_in_use" ∷ []
related_signal_ids high_error_rate = "fd_exhaustion" ∷ "conn_refused" ∷ []
related_signal_ids memory_overshoot = "oom" ∷ []
related_signal_ids slow_recovery = []
related_signal_ids tail_latency_spike = []

abbrev or_next : Option SignalHit → Option SignalHit → Option SignalHit
or_next (some hit) next = some hit
or_next none next = next

-- `find_map` over the ids
abbrev first_hit : List SignalHit → List String → Option SignalHit
first_hit signals [] = none
first_hit signals (id ∷ ids) = or_next (find_hit signals id) (first_hit signals ids)

abbrev line_of : Option SignalHit → List String
line_of none = []
line_of (some hit) = hit.line ∷ []

-- A log that explains the symptom raises the confidence.
abbrev confidence_of : Option SignalHit → Confidence
confidence_of none = medium_confidence
confidence_of (some hit) = high_confidence

abbrev crash_cause : String → Option SignalHit → String
crash_cause fault (some hit) = concat ("under the `" ∷ fault ∷ "` fault, " ∷ hit.cause ∷ [])
crash_cause fault none = concat (
    "the process stopped answering under the `" ∷ fault ∷ "` fault; no crash signature was logged"
    ∷ [])

abbrev crash_family : Option SignalHit → String
crash_family (some hit) = hit.family
crash_family none = "reliability"

unfoldable pub crash : Symptom → List SignalHit → String → Finding
crash symptom signals fault =
    let hit = first_hit signals crash_ids in
    record {
      id = concat ("crash." ∷ fault ∷ []);
      title = concat ("Service crashes under `" ∷ fault ∷ "`" ∷ []);
      severity = critical;
      confidence = confidence_of hit;
      related_fault = some fault;
      symptom = symptom.detail;
      root_cause = crash_cause fault hit;
      remediation =
          "harden the failing path: validate inputs and catch/handle errors instead of aborting";
      family = crash_family hit;
      evidence = line_of hit ++ symptom.evidence;
    }

abbrev port_cause : Option SignalHit → String
port_cause (some hit) = "the previous instance did not release its listen port before restart"
port_cause none = "the service did not become healthy again within the recovery bound"

abbrev port_remedy : Option SignalHit → String
port_remedy (some hit) =
    "add a graceful shutdown that closes the listener, or bind with address reuse"
port_remedy none =
    "ensure the process exits cleanly and restarts fast; check for stuck resources on shutdown"

unfoldable pub never_back : Symptom → List SignalHit → String → Finding
never_back symptom signals fault =
    let hit = find_hit signals "port_in_use" in
    record {
      id = concat ("no_recovery." ∷ fault ∷ []);
      title = "Service does not recover after a kill";
      severity = critical;
      confidence = confidence_of hit;
      related_fault = some fault;
      symptom = symptom.detail;
      root_cause = port_cause hit;
      remediation = port_remedy hit;
      family = "reliability";
      evidence = line_of hit;
    }

unfoldable pub slow_back : Symptom → String → Finding
slow_back symptom fault = record {
  id = concat ("slow_recovery." ∷ fault ∷ []);
  title = "Recovery is slow";
  severity = medium;
  confidence = medium_confidence;
  related_fault = some fault;
  symptom = symptom.detail;
  root_cause =
      "the service takes a large fraction of the recovery budget to become healthy (slow startup or warmup)";
  remediation = "reduce startup work: lazy-init heavy components, or add a readiness gate";
  family = "performance";
  evidence = symptom.evidence;
}

abbrev rate_cause : Option SignalHit → Option SignalHit → String
rate_cause (some fd) refused = "file-descriptor exhaustion under load"
rate_cause none (some refused) = "a downstream dependency was refusing connections under load"
rate_cause none none = "requests failed above the accepted ratio under load"

abbrev rate_remedy : Option SignalHit → Option SignalHit → String
rate_remedy (some fd) refused =
    "reuse connections / a bounded pool, and raise the fd limit for the service"
rate_remedy none (some refused) =
    "add timeouts, retries with backoff, and a circuit breaker around the dependency"
rate_remedy none none =
    "add backpressure / a concurrency limit so overload sheds gracefully instead of erroring"

unfoldable pub error_rate : Symptom → List SignalHit → String → Finding
error_rate symptom signals fault =
    let fd = find_hit signals "fd_exhaustion" in
    let refused = find_hit signals "conn_refused" in
    record {
      id = concat ("error_rate." ∷ fault ∷ []);
      title = "Elevated error rate under load";
      severity = high;
      confidence = confidence_of (or_next fd refused);
      related_fault = some fault;
      symptom = symptom.detail;
      root_cause = rate_cause fd refused;
      remediation = rate_remedy fd refused;
      family = "reliability";
      evidence = line_of (or_next fd refused) ++ symptom.evidence;
    }

abbrev memory_cause : Option SignalHit → String
memory_cause (some hit) = hit.cause
memory_cause none = "resident memory grew past the ceiling while under stress"

unfoldable pub memory : Symptom → List SignalHit → String → Finding
memory symptom signals fault =
    let hit = find_hit signals "oom" in
    record {
      id = concat ("memory." ∷ fault ∷ []);
      title = "Memory grows past its ceiling under load";
      severity = high;
      confidence = confidence_of hit;
      related_fault = some fault;
      symptom = symptom.detail;
      root_cause = memory_cause hit;
      remediation = "cap buffers/caches, stream large payloads, and check for per-request leaks";
      family = "memory";
      evidence = line_of hit ++ symptom.evidence;
    }

unfoldable pub tail_latency : Symptom → String → Finding
tail_latency symptom fault = record {
  id = concat ("tail_latency." ∷ fault ∷ []);
  title = "Heavy tail latency under load";
  severity = medium;
  confidence = medium_confidence;
  related_fault = some fault;
  symptom = symptom.detail;
  root_cause =
      "P99 is far above P95, pointing at lock contention, GC pauses, or a single-threaded bottleneck";
  remediation =
      "profile the slow path; parallelize the blocking work or remove the shared lock on the hot path";
  family = "performance";
  evidence = symptom.evidence;
}

abbrev fault_slug : Option String → String
fault_slug none = "unknown"
fault_slug (some fault) = fault

abbrev pub by_kind : SymptomKind → Symptom → List SignalHit → String → Finding
by_kind crash_after_fault symptom signals fault = crash symptom signals fault
by_kind no_recovery symptom signals fault = never_back symptom signals fault
by_kind slow_recovery symptom signals fault = slow_back symptom fault
by_kind high_error_rate symptom signals fault = error_rate symptom signals fault
by_kind memory_overshoot symptom signals fault = memory symptom signals fault
by_kind tail_latency_spike symptom signals fault = tail_latency symptom fault

abbrev pub diagnose_symptom : List SignalHit → Symptom → Finding
diagnose_symptom signals symptom = by_kind symptom.kind symptom signals (fault_slug symptom.fault)
