-- ===== src/Lib.antt =====
-- navin-engine, verified in parts. The engine proves a service under faults, looks for
-- candidate fixes, proves each candidate in a shadow copy of the project, and promotes an
-- accepted one to a branch, with a signed certificate, under a policy. A daemon runs these
-- campaigns as jobs.
--
-- The parts, and the files that model them. Each definition keeps the name of the function in
-- the code; a closure or an arm of a long function is a helper beside it.
--
-- - System.antt, System/Path.antt: the machine under the engine, that is processes, the file
--   system, the clock and randomness, as a record of operations over a type of states. A
--   function that has effects takes a state and returns a result with the next state, so what
--   was done before an error stays done. Paths are lists of names; reading their text follows
--   std::path on Unix.
-- - Proof.antt, Proof/Checks.antt: src/proof/model.rs and src/proof/checks.rs.
--   Proof/Rollup.antt is about the score and the verdict of a report.
-- - Proof/Faults.antt, Proof/Service.antt, Proof/Worker.antt, Proof/Engine.antt:
--   src/proof/faults/, src/proof/service.rs, src/proof/worker.rs and src/proof/engine.rs. A
--   proof starts the service (or a worker, which has no port), injects the faults of its plan
--   and builds the report; the state of a manager is the machine with the process that it
--   holds. Proof/Faults/Named.antt and Proof/Engine/Covered.antt hold the proofs.
-- - Runner.antt, Runner/Ports.antt, Runner/Poll.antt: the sockets and processes that a proof
--   uses, as the record Wire; src/runner/ports.rs; and the waits of src/runner/health.rs,
--   src/proof/service.rs and src/proof/worker.rs.
-- - Shadow.antt: src/shadow/manager.rs, src/shadow/cleanup.rs and the git commands of
--   src/shadow/worktree.rs, with the lemmas on what a destroyed shadow leaves in
--   Shadow/Gone.antt.
-- - Policy.antt: src/policy/config.rs, the sections of the configuration with their defaults.
-- - Diagnose.antt, Diagnose/Symptoms.antt, Diagnose/LogScan.antt, Diagnose/Rules.antt,
--   Diagnose/Engine.antt: the files of src/diagnose/, from the checks of a proof and the log
--   of its service to findings, with proofs in Diagnose/Ranked.antt,
--   Diagnose/LogScan/Distinct.antt and Diagnose/Engine/Serious.antt.
-- - Fix/Model.antt, Fix/Gate.antt, Fix/Patch.antt, Fix/Diff.antt, Fix/Engine.antt,
--   Fix/Generator.antt: the files of src/fix/ of the same names; Fix/Prove.antt is
--   prove_and_diagnose of src/fix/engine.rs with what it calls, and fills the record Campaign
--   of Fix/Engine.antt. The campaign calls the gate on what a proof in a shadow returned, and
--   the patch is what the promotion applies later. Fix/Gate/Laws.antt,
--   Fix/Patch/Confined.antt, Fix/Engine/Sifted.antt, Fix/Generator/Targeted.antt,
--   Fix/Prove/Gone.antt and Fix/Prove/ReadBack.antt hold the proofs.
-- - Evolve.antt: src/evolve/, the pipeline that calls the proof, the diagnosis, the campaign
--   and the promotion in turn; its proof, in Evolve/Within.antt, rests on that of the
--   promotion.
-- - Promote/: src/promote/. Policy.antt is policy.rs, Hex.antt and Certificate.antt are
--   identity.rs, certify.rs and the certificate of model.rs, Record.antt the record of
--   model.rs with its store, Git.antt git.rs, Slug.antt, Bundle.antt, Engine.antt and
--   Operator.antt are engine.rs: the names of branches, promotion without git, promote, and
--   merge with rollback; Publish.antt and Links.antt are publish.rs. The promotion issues a
--   certificate from the fix report, asks the policy, and writes a record that merge and
--   rollback read again. Operator/Stored.antt has what is asked of the file of a record,
--   Operator/Undone.antt what a rollback undoes, and Operator/Once.antt what merge and
--   rollback rest on and leave.
-- - Optimize/Model.antt: src/optimize/model.rs and src/optimize/stats.rs.
--   Optimize/Measure.antt, Optimize/Judge.antt, Optimize/Report.antt and Optimize/Engine.antt
--   are src/optimize/engine.rs: a measurement or a proof in a shadow, the judgement of a
--   variant, the report, and the campaign, which promotes its winner like a fix.
--   Optimize/Model/Winner.antt, Optimize/Judge/Eligible.antt, Optimize/Judge/Named.antt and
--   Optimize/Engine/Verified.antt hold the proofs.
-- - Baseline.antt: the set of probes and the percentile of src/baseline/latency.rs; the proofs
--   are in Baseline/Probes.antt.
-- - Verify/Crawl.antt, Verify/Differential.antt, Verify/Invariants.antt: the vectors and the
--   comparison in src/verify/differential.rs, and src/verify/invariants.rs; the proofs are in
--   Verify/Crawl/Capped.antt, Verify/Differential/Equivalent.antt and
--   Verify/Invariants/Reported.antt.
-- - Daemon/Scheduler.antt, Daemon/Worker.antt: src/daemon/scheduler.rs, and run_worker with
--   execute of src/daemon/worker.rs. The scheduler has each call as one function. The sessions
--   and the worker interleave: a run is a sequence of steps, each of which is one access,
--   under one lock or to the counter or the channel, and a call keeps what it has read until
--   its next step. What a job does is any outcome. The proofs are in the child modules:
--   Daemon/Worker/Runs.antt is about the job that runs, Owned.antt and Lasts.antt count the
--   places at which a job is, Waits.antt is about the queue and Stays.antt about jobs that are
--   over, Race.antt shows what a late cancel does, and Drains.antt the way to rest.
-- - Examples/: small machines and inputs on which the theorems are applied.
--
-- Numbers. Unsigned integers are natural numbers, with the wrap-around written out where the
-- code adds or multiplies (% 2 ^ 64 and the like); the counter of job ids is taken not to come
-- round, a premise of the step that takes an id. Floats are an argument, with the laws that a
-- theorem needs as a named hypothesis. Times are in milliseconds. Loops are structural
-- recursion, with fuel in two places: in the names of branches each turn removes a character,
-- so the number of characters is enough; a wait pauses for a millisecond at least in each
-- round, so as many rounds as its bound has milliseconds, and one more, are enough.
--
-- Parameters. Git, the file system, the clock and the entropy source are the record System;
-- the signature and hash crates are the record Crypto, with their contract in CryptoLaws;
-- serde_json and the markdown reports are the record Codec; what a text is printed to or read
-- from (floats, lower case, messages) is the record Formats; sockets, processes, samplers and
-- the chaos proxy are the record Wire, one GET of the crawl the function fetch, and how files
-- get into a shadow the record Materials; the toml file is read by load_config; the external
-- program that proposes candidates is the record Bridge, and the gh program the record
-- GitHubCli.
--
-- Not modelled: the bytes of probes and samplers, the project detector, storage, sockets and
-- protocols. The drop of a process after a failed proof is not a step. Progress events and
-- logging are left out. Paths are names: where a symbolic link leads is not modelled.
pub mod Prelude
pub mod System
pub mod Proof
pub mod Policy
pub mod Diagnose
pub mod Fix
pub mod Promote
pub mod Baseline
pub mod Optimize
pub mod Verify
pub mod Daemon
pub mod Shadow
pub mod Runner
pub mod Evolve
pub mod Examples
