-- ===== src/Proof/Faults/Kinds.antt =====
-- src/proof/faults/mod.rs: the catalogue of faults.
use navin_engine.Prelude.{String}

pub data FaultKind : Type 0 where
  load kill_recovery malformed connection_flood network_chaos : FaultKind

abbrev pub name_of : FaultKind → String
name_of load = "load"
name_of kill_recovery = "kill_recovery"
name_of malformed = "malformed"
name_of connection_flood = "connection_flood"
name_of network_chaos = "network_chaos"
