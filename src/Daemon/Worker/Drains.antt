-- ===== src/Daemon/Worker/Drains.antt =====
-- src/daemon/worker.rs: left to itself, the worker can always come to rest.
use navin_engine.Prelude.{
  ◌≢◌, ◌≡◌, refl, String, List, [], ◌∷◌, Result, ok, err, Bool-cases, inl, inr,
}
use navin_engine.Daemon.Scheduler.{Job, is_cancelled}
use navin_engine.Daemon.Worker.{
  Phase, idle, halted, received, checked, begun, working, leaving, ending, Daemon, receive, publish,
  run_cancelled, on_scheduler, check, leave, begin, listen, conclude, settle, Step, takes_id,
  inserts, sends, looks, answers, receives, checks, leaves, begins, listens, concludes, settles,
  halts,
}

module _ {V : Type 0} where
  -- A step of the worker that takes or carries on a job: not one of a session, and not the end of
  -- `run_worker`.
  abbrev IsOwn : {d e : Daemon V} → Step d e → Type 0
  IsOwn (takes_id kind params fits) = ⊥
  IsOwn (inserts before after job c) = ⊥
  IsOwn (sends before after job c) = ⊥
  IsOwn (looks id) = ⊥
  IsOwn (answers before after id state c) = ⊥
  IsOwn (halts p) = ⊥
  IsOwn _ = Unit

  pub data Work : Daemon V → Daemon V → Type 0 where
    done : {d : Daemon V} → Work d d
    first : {d e f : Daemon V} (s : Step d e) → IsOwn s → Work e f → Work d f

  Work-trans : {d e f : Daemon V} → Work d e → Work e f → Work d f
  Work-trans done rest = rest
  Work-trans (first s own w) rest = first s own (Work-trans w rest)

  -- The worker can put the job in hand away, and the queue stays.
  pub record Rests (queue : List (Job V)) (d : Daemon V) : Type 0 where
    pub rest : Daemon V
    pub work : Work d rest
    pub free : rest.phase ≡ idle
    pub left : rest.scheduler.queue ≡ queue

  step-Rests :
      (queue : List (Job V)) (d e : Daemon V) (s : Step d e)
      → IsOwn s
      → Rests queue e
      → Rests queue d
  step-Rests queue d e s own r = record {
    rest = r.rest;
    work = first s own r.work;
    free = r.free;
    left = r.left;
  }

  settle-Rests :
      (queue : List (Job V)) (d : Daemon V) (job : Job V) (outcome : Result String V)
      → d.phase ≡ ending job outcome
      → d.scheduler.queue ≡ queue
      → Rests queue d
  unfolding settle
  settle-Rests queue d job (ok v) p q =
      step-Rests queue d _ (settles job (ok v) p) tt
        (record { rest = settle job (ok v) d; work = done; free = refl; left = q })
  settle-Rests queue d job (err e) p q =
      step-Rests queue d _ (settles job (err e) p) tt
        (record { rest = settle job (err e) d; work = done; free = refl; left = q })

  working-Rests :
      (queue : List (Job V)) (d : Daemon V) (job : Job V)
      → d.phase ≡ working job
      → d.scheduler.queue ≡ queue
      → Rests queue d
  unfolding conclude
  working-Rests queue d job p q =
      step-Rests queue d _ (concludes job (err "") p) tt
        (settle-Rests queue (conclude job (err "") d) job (err "") refl q)

  begun-Rests :
      (queue : List (Job V)) (d : Daemon V) (job : Job V)
      → d.phase ≡ begun job
      → d.scheduler.queue ≡ queue
      → Rests queue d
  unfolding listen
  begun-Rests queue d job p q =
      step-Rests queue d _ (listens job p) tt (working-Rests queue (listen job d) job refl q)

  checked-Rests :
      (queue : List (Job V)) (d : Daemon V) (job : Job V)
      → d.phase ≡ checked job
      → d.scheduler.queue ≡ queue
      → Rests queue d
  unfolding begin
  checked-Rests queue d job p q =
      step-Rests queue d _ (begins job p) tt (begun-Rests queue (begin job d) job refl q)

  leaving-Rests :
      (queue : List (Job V)) (d : Daemon V) (job : Job V)
      → d.phase ≡ leaving job
      → d.scheduler.queue ≡ queue
      → Rests queue d
  unfolding leave
  leaving-Rests queue d job p q =
      step-Rests queue d _ (leaves job p) tt
        (record { rest = leave job d; work = done; free = refl; left = q })

  -- A job that was called off while it waited.
  abbrev called_off : Job V → Daemon V → Daemon V
  called_off job d =
      publish (run_cancelled job.id job.kind "queued") (on_scheduler (λ s. s) (leaving job) d)

  received-Rests :
      (queue : List (Job V)) (d : Daemon V) (job : Job V)
      → d.phase ≡ received job
      → d.scheduler.queue ≡ queue
      → Rests queue d
  unfolding check
  received-Rests queue d job p q =
      step-Rests queue d _ (checks job p) tt (elim (Bool-cases (is_cancelled job.id d.scheduler)) [
        | inl h ↦ rw h (leaving-Rests queue (called_off job d) job refl q)
        | inr h ↦ rw h (checked-Rests queue (record d { phase = checked job }) job refl q)
      ])

  phase-Rests :
      (d : Daemon V) (phase : Phase V)
      → phase ≢ halted
      → d.phase ≡ phase
      → Rests d.scheduler.queue d
  phase-Rests d idle live p = record { rest = d; work = done; free = p; left = refl }
  phase-Rests d halted live p = absurd (live refl)
  phase-Rests d (received job) live p = received-Rests _ d job p refl
  phase-Rests d (checked job) live p = checked-Rests _ d job p refl
  phase-Rests d (begun job) live p = begun-Rests _ d job p refl
  phase-Rests d (working job) live p = working-Rests _ d job p refl
  phase-Rests d (leaving job) live p = leaving-Rests _ d job p refl
  phase-Rests d (ending job outcome) live p = settle-Rests _ d job outcome p refl

  join-Rests :
      {queue : List (Job V)} {d : Daemon V}
      → Rests queue d
      → ((e : Daemon V) → e.phase ≡ idle → e.scheduler.queue ≡ queue → Rests [] e)
      → Rests [] d
  join-Rests r next =
      let e = next r.rest r.free r.left in
      record { rest = e.rest; work = Work-trans r.work e.work; free = e.free; left = e.left }

  drain :
      (queue : List (Job V)) (d : Daemon V)
      → d.phase ≡ idle
      → d.scheduler.queue ≡ queue
      → Rests [] d
  drain [] d p q = record { rest = d; work = done; free = p; left = q }
  drain (job ∷ queue) d p q = step-Rests [] d _ (receives job queue p q) tt (
      join-Rests (received-Rests queue (receive job queue d) job refl refl)
        (λ e f l. drain queue e f l))

  -- Unless `run_worker` has returned, the worker has steps of its own, with no session's help, that
  -- bring the daemon to a state in which it waits and no job is left in the queue; the end of the
  -- job that runs is one of those steps. A shutdown in between is not among them.
  pub worker-Rests : (d : Daemon V) → d.phase ≢ halted → Rests [] d
  worker-Rests d live =
      join-Rests (phase-Rests d d.phase live refl)
        (λ e free left. drain d.scheduler.queue e free left)
