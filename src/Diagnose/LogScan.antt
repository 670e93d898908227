-- ===== src/Diagnose/LogScan.antt =====
-- src/diagnose/log_scan.rs: known error signatures in the log of a service.
pub mod Distinct
use navin_engine.Prelude.{
  ℕ, String, Bool, true, false, ◌&&◌, not, Option, none, some, List, [], ◌∷◌, ◌++◌, map, find,
  filter, any, str_eq, if◌then◌else◌,
}
use navin_engine.Prelude.Text.{trim, is_blank}
use navin_engine.Prelude.Patterns.{has_text, lines, take_chars}
use navin_engine.Policy.{SignatureSpec}

pub record SignalHit : Type 0 where
  pub id : String
  pub family : String
  pub cause : String
  pub line : String

-- The built-in signatures have the fields of those that a project declares.
abbrev signal : String → String → String → String → SignatureSpec
signal marker id family cause = record { marker = marker; id = id; family = family; cause = cause }

abbrev pub signals : List SignatureSpec
signals =
    signal "panicked at" "rust_panic" "reliability" "a Rust panic aborted a request handler"
    ∷ signal "traceback (most recent call last)" "py_exception" "reliability"
        "an unhandled Python exception"
    ∷ signal "goroutine " "go_panic" "reliability" "a Go panic unwound its goroutine"
    ∷ signal "panic:" "go_panic" "reliability" "a Go panic unwound its goroutine"
    ∷ signal "segmentation fault" "segfault" "memory" "a segmentation fault (memory-safety bug)"
    ∷ signal "sigsegv" "segfault" "memory" "a segmentation fault (memory-safety bug)"
    ∷ signal "java.lang.outofmemoryerror" "oom" "memory" "the JVM ran out of heap"
    ∷ signal "out of memory" "oom" "memory" "the process ran out of memory"
    ∷ signal "cannot allocate memory" "oom" "memory" "an allocation failed (memory pressure)"
    ∷ signal "maximum call stack size exceeded" "stack_overflow" "reliability"
        "unbounded recursion blew the call stack"
    ∷ signal "recursionerror" "stack_overflow" "reliability"
        "unbounded recursion blew the call stack"
    ∷ signal "stack overflow" "stack_overflow" "reliability"
        "unbounded recursion blew the call stack"
    ∷ signal "address already in use" "port_in_use" "reliability"
        "the listen port was still held from a previous instance"
    ∷ signal "eaddrinuse" "port_in_use" "reliability"
        "the listen port was still held from a previous instance"
    ∷ signal "too many open files" "fd_exhaustion" "reliability"
        "file-descriptor exhaustion under load"
    ∷ signal "emfile" "fd_exhaustion" "reliability" "file-descriptor exhaustion under load"
    ∷ signal "connection refused" "conn_refused" "reliability"
        "a dependency the service needs was unreachable"
    ∷ signal "connection reset by peer" "conn_reset" "reliability"
        "a connection was reset mid-request"
    ∷ signal "econnreset" "conn_reset" "reliability" "a connection was reset mid-request"
    ∷ signal "etimedout" "net_timeout" "reliability" "a network operation timed out"
    ∷ signal "database is locked" "db_locked" "database"
        "SQLite write contention (database is locked)"
    ∷ signal "too many connections" "db_pool" "database"
        "the database connection pool was exhausted"
    ∷ signal "no space left on device" "disk_full" "reliability" "the disk filled up"
    ∷ signal "deadlock" "deadlock" "concurrency" "a lock ordering / deadlock condition"
    ∷ signal "uncaught exception" "uncaught" "reliability"
        "an uncaught exception crashed the handler"
    ∷ signal "unhandled rejection" "uncaught" "reliability" "an unhandled promise rejection"
    ∷ []

abbrev pub is_declared : SignatureSpec → Bool
is_declared sig = not (is_blank (trim sig.marker)) && not (is_blank (trim sig.id))

-- What a line matches: a signature of the project before a built-in one, the first of each.
abbrev or_built_in : Option SignatureSpec → Option SignatureSpec → Option SignatureSpec
or_built_in (some sig) built_in = some sig
or_built_in none built_in = built_in

abbrev pub hit_of : SignatureSpec → String → SignalHit
hit_of sig raw = record {
  id = sig.id;
  family = sig.family;
  cause = sig.cause;
  line = take_chars 200 (trim raw);
}

abbrev pub is_hit : String → SignalHit → Bool
is_hit id hit = str_eq hit.id id

-- Only the first line of an id is kept.
abbrev pub push_hit : List SignalHit → String → Option SignatureSpec → List SignalHit
push_hit hits raw none = hits
push_hit hits raw (some sig) =
    if any (is_hit sig.id) hits then hits else hits ++ hit_of sig raw ∷ []

module _ (to_lowercase : String → String) where
  abbrev pub matched : List SignatureSpec → String → Option SignatureSpec
  matched custom raw =
      let lower = to_lowercase raw in
      or_built_in (find (λ (sig : SignatureSpec). has_text (to_lowercase sig.marker) lower) custom)
        (find (λ (sig : SignatureSpec). has_text sig.marker lower) signals)

  unfoldable pub scan_lines : List SignatureSpec → List String → List SignalHit → List SignalHit
  scan_lines custom [] hits = hits
  scan_lines custom (raw ∷ raws) hits =
      scan_lines custom raws (push_hit hits raw (matched custom raw))

  unfoldable pub scan_with : String → List SignatureSpec → List SignalHit
  unfolding scan_lines
  scan_with log_text custom = scan_lines (filter is_declared custom) (lines log_text) []

-- `find`, the first hit of an id
abbrev pub find_hit : List SignalHit → String → Option SignalHit
find_hit hits id = find (is_hit id) hits
