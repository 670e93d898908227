-- ===== src/Daemon/Worker/Race.antt =====
-- src/daemon/worker.rs, `execute`, between its look at a record and its start of the job.
use navin_engine.Prelude.{ℕ, ◌≡◌, ap, ◌∙◌, arith, none, some, Result, String, ok}
use navin_engine.Daemon.Scheduler.{
  JobState, Job, queued, running, cancelled, Scheduler, state_of, cancel_in, cancel,
}
use navin_engine.Daemon.Scheduler.Records.{state_at-set_in}
use navin_engine.Daemon.Worker.{Daemon, begin, listen, start}

module _ {V : Type 0} where
  -- The daemon after a session asked to cancel the job.
  abbrev pub after_cancel : ℕ → Daemon V → Daemon V
  after_cancel id d = record d { scheduler = (cancel id d.scheduler).1 }

  start-runs :
      (job : Job V) (d : Daemon V)
      → state_of job.id d.scheduler ≡ some cancelled
      → state_of job.id (start job d).scheduler ≡ some running
  unfolding begin listen
  start-runs job d h =
      ground (arith, h, state_at-set_in job.id job.id running none d.scheduler.records)

  cancel-queued :
      (id : ℕ) (s : Scheduler V)
      → state_of id s ≡ some queued
      → ((cancel id s).0 ≡ ok queued) × (state_of id (cancel id s).1 ≡ some cancelled)
  unfolding cancel
  cancel-queued id s h =
      let c = ap (cancel_in id s) h in
      let law = state_at-set_in id id cancelled (some "cancelled before it started") s.records in
      (
        ap (λ (r : Result String JobState × Scheduler V). r.0) c,
        ap (λ (r : Result String JobState × Scheduler V). state_of id r.1) c
            ∙ ground (arith, law, h),
      )

  -- A job whose record says Queued, and that a session cancels after the worker looked at its
  -- record and before it starts the job: the session is told that the job was cancelled in the
  -- queue, the record says Cancelled, and the job is then recorded as Running all the same.
  pub cancel_too_late :
      (d : Daemon V) (job : Job V)
      → state_of job.id d.scheduler ≡ some queued
      → ((cancel job.id d.scheduler).0 ≡ ok queued)
        × (state_of job.id (after_cancel job.id d).scheduler ≡ some cancelled)
        × (state_of job.id (start job (after_cancel job.id d)).scheduler ≡ some running)
  cancel_too_late d job h =
      let (answer, gone) = cancel-queued job.id d.scheduler h in
      (answer, gone, start-runs job (after_cancel job.id d) gone)
