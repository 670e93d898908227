-- ===== src/Diagnose/LogScan/Distinct.antt =====
-- src/diagnose/log_scan.rs: a signal is reported once, by the first line that shows it.
use navin_engine.Prelude.{String, List, map}
use navin_engine.Diagnose.LogScan.{SignalHit}

abbrev pub ids : List SignalHit → List String
ids hits = map (λ (h : SignalHit). h.id) hits
