-- ===== src/Daemon/Scheduler/Enqueue.antt =====
-- src/daemon/scheduler.rs, `enqueue`: what it does when there is room, and when there is none.
use navin_engine.Prelude.{
  ℕ, ◌≡◌, ◌≢◌, refl, arith, String, Bool, true, false, none, some, [], ◌∷◌, ◌++◌, Result, ok, err,
  length, ltb,
}
use navin_engine.Daemon.Scheduler.{
  Job, JobRecord, queued, Scheduler, queue_depth, state_of, enqueue_if, enqueue,
}
use navin_engine.Daemon.Scheduler.Records.{state_at-insert_record}

module _ {V : Type 0} (kind : String) (params : V) (s : Scheduler V) where
  -- The answer, by whether the queue has room.
  abbrev pub Enqueued : Bool → Result String ℕ × Scheduler V → Type 0
  Enqueued true r =
      let job : Job V = record { id = s.next_id; kind = kind; params = params } in
      (r.0 ≡ ok s.next_id) × (r.1.queue ≡ s.queue ++ job ∷ [])
  Enqueued false r = ((e : String) × (r.0 ≡ err e)) × (r.1.queue ≡ s.queue)

  abbrev new_job : JobRecord
  new_job = record { id = s.next_id; kind = kind; state = queued; detail = none }

  enqueue_if-Enqueued : (room : Bool) → Enqueued room (enqueue_if room kind params s)
  enqueue_if-Enqueued true = (refl, refl)
  enqueue_if-Enqueued false = ((_, refl), refl)

  states :
      (i : ℕ) (room : Bool)
      → i ≢ s.next_id
      → (state_of s.next_id (enqueue_if room kind params s).1 ≡ some queued)
        × (state_of i (enqueue_if room kind params s).1 ≡ state_of i s)
  states i true ne = (
    ground (arith, state_at-insert_record s.next_id new_job s.records),
    ground (arith, state_at-insert_record i new_job s.records),
  )
  states i false ne = (
    ground (arith, state_at-insert_record s.next_id new_job s.records),
    ground (arith, state_at-insert_record i new_job s.records),
  )

  -- When fewer than 64 jobs wait, `enqueue` returns the next id and the job waits last; otherwise
  -- it fails and the queue stays. Either way the record of that id says Queued, so that after
  -- the failure a record waits for ever, and the state of no other job changes.
  pub enqueue-Enqueued :
      (i : ℕ)
      → i ≢ s.next_id
      → Enqueued (ltb (length s.queue) queue_depth) (enqueue kind params s)
        × (state_of s.next_id (enqueue kind params s).1 ≡ some queued)
        × (state_of i (enqueue kind params s).1 ≡ state_of i s)
  unfolding enqueue
  enqueue-Enqueued i ne =
      let room = ltb (length s.queue) queue_depth in
      let (mine, others) = states i room ne in (enqueue_if-Enqueued room, mine, others)
