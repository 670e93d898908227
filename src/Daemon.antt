-- ===== src/Daemon.antt =====
-- The daemon, src/daemon/: the queue of jobs and the worker that drains it.
pub mod Scheduler
pub mod Worker
