-- ===== src/Daemon/Worker.antt =====
-- src/daemon/worker.rs, `run_worker` and `execute`: one worker drains the queue, and any number of
-- sessions enqueue and cancel. All share the scheduler, so a run is a sequence of steps, and each
-- step is one access: one lock of a map, one operation on the counter or on the channel. What a
-- thread has read stays with it until its next step, also when it is no longer so. What a job
-- does (`run_job`) is not computed: it may end with any outcome.
pub mod Runs
pub mod Owned
pub mod Lasts
pub mod Stays
pub mod Waits
pub mod Race
pub mod Drains
use navin_engine.Prelude.{
  ℕ, suc, ◌+◌, ◌%◌, ◌<◌, ◌^◌, String, ◌≡◌, Bool, true, false, Option, none, some, List, [], ◌∷◌,
  ◌++◌, if◌then◌else◌, ltb, length, Result, ok, err,
}
use navin_engine.Daemon.Scheduler.{
  JobState, Job, JobRecord, queued, running, completed, failed, cancelled, queue_depth, Switch,
  Scheduler, new, insert_record, state_of, set_state, stop_signal, get_stop, cancel_in,
  is_cancelled, forget_stop,
}

module _ (V : Type 0) where
  -- What the worker publishes on the bus.
  pub data Event : Type 0 where
    run_started : ℕ → String → Event
    run_cancelled : ℕ → String → String → Event
    run_completed : ℕ → String → V → Event
    run_failed : ℕ → String → String → Event

  -- Where the worker stands: it waits; it has received a job; it has seen that the job was not
  -- called off; the job says Running, and nobody listens to its switch yet; it runs the job; the
  -- job was called off, and its switch is still there; the job is over and its outcome is not
  -- recorded yet; `run_worker` has returned.
  pub data Phase : Type 0 where
    idle halted : Phase
    received checked begun working leaving : Job V → Phase
    ending : Job V → Result String V → Phase

  -- What a session is about to do: insert the record of a new job, send the job to the channel, or
  -- act on the state that `cancel` has read.
  pub data Call : Type 0 where
    recording sending : Job V → Call
    answering : ℕ → Option JobState → Call

  pub record Daemon : Type 0 where
    pub scheduler : Scheduler V
    pub phase : Phase
    pub events : List Event
    pub calls : List Call

module _ {V : Type 0} where
  abbrev pub publish : Event V → Daemon V → Daemon V
  publish e d = record d { events = d.events ++ e ∷ [] }

  abbrev pub on_scheduler : (Scheduler V → Scheduler V) → Phase V → Daemon V → Daemon V
  on_scheduler f phase d = record d { scheduler = f d.scheduler; phase = phase }

  -- `rx.recv()`
  abbrev pub receive : Job V → List (Job V) → Daemon V → Daemon V
  receive job rest d = record d {
    scheduler = record d.scheduler { queue = rest };
    phase = received job;
  }

  -- A job that was called off while it waited is dropped.
  unfoldable pub check : Job V → Daemon V → Daemon V
  check job d =
      if is_cancelled job.id d.scheduler
      then publish (run_cancelled job.id job.kind "queued") (on_scheduler (λ s. s) (leaving job) d)
      else on_scheduler (λ s. s) (checked job) d

  -- The job that was called off is forgotten.
  unfoldable pub leave : Job V → Daemon V → Daemon V
  leave job d = on_scheduler (forget_stop job.id) idle d

  unfoldable pub begin : Job V → Daemon V → Daemon V
  begin job d =
      publish (run_started job.id job.kind)
        (on_scheduler (set_state job.id running none) (begun job) d)

  unfoldable pub listen : Job V → Daemon V → Daemon V
  listen job d = on_scheduler (stop_signal job.id) (working job) d

  -- The start of a job, with nothing in between.
  abbrev pub start : Job V → Daemon V → Daemon V
  start job d = listen job (begin job d)

  -- The arm of the select that saw the switch.
  unfoldable pub stop : Job V → Daemon V → Daemon V
  stop job d =
      publish (run_cancelled job.id job.kind "running")
        (on_scheduler (set_state job.id cancelled (some "stopped on request")) (leaving job) d)

  -- The arm of the select in which the job came to its end.
  unfoldable pub conclude : Job V → Result String V → Daemon V → Daemon V
  conclude job outcome d = on_scheduler (forget_stop job.id) (ending job outcome) d

  unfoldable pub settle : Job V → Result String V → Daemon V → Daemon V
  settle job (ok result) d =
      publish (run_completed job.id job.kind result)
        (on_scheduler (set_state job.id completed none) idle d)
  settle job (err message) d =
      publish (run_failed job.id job.kind message)
        (on_scheduler (set_state job.id failed (some message)) idle d)

  -- `run_worker` returns: the receiver is dropped, and what waits in the channel with it.
  unfoldable pub halt : Daemon V → Daemon V
  halt d = on_scheduler (λ s. record s { queue = [] }) halted d

  -- `enqueue`: the id is taken from the counter,
  unfoldable pub take_id : String → V → Daemon V → Daemon V
  take_id kind params d =
      let job : Job V = record { id = d.scheduler.next_id; kind = kind; params = params } in
      record d {
        scheduler = record d.scheduler { next_id = (d.scheduler.next_id + 1) % 2 ^ 64 };
        calls = recording job ∷ d.calls;
      }

  -- the record is inserted,
  unfoldable pub insert_queued : Job V → List (Call V) → Daemon V → Daemon V
  insert_queued job calls d =
      let r : JobRecord = record { id = job.id; kind = job.kind; state = queued; detail = none } in
      record d {
        scheduler = record d.scheduler { records = insert_record r d.scheduler.records };
        calls = calls;
      }

  -- Whether `try_send` takes a job: the receiver is still there, and fewer than 64 jobs wait.
  abbrev pub has_room : Phase V → List (Job V) → Bool
  has_room halted queue = false
  has_room _ queue = ltb (length queue) queue_depth

  -- and the job is sent to the channel, if there is room.
  unfoldable pub try_send : Job V → List (Call V) → Daemon V → Daemon V
  try_send job calls d =
      let queue = d.scheduler.queue in
      record d {
        scheduler = record d.scheduler {
          queue = if has_room d.phase queue then queue ++ job ∷ [] else queue;
        };
        calls = calls;
      }

  -- `cancel`: the state is read under one lock,
  unfoldable pub look : ℕ → Daemon V → Daemon V
  look id d = record d { calls = answering id (state_of id d.scheduler) ∷ d.calls }

  -- and what the state that was read asks for is done under another.
  unfoldable pub act_on : ℕ → Option JobState → List (Call V) → Daemon V → Daemon V
  act_on id state calls d = record d {
    scheduler = (cancel_in id d.scheduler state).1;
    calls = calls;
  }

  -- One step of the daemon. The first five are those of a session: of its calls that are under
  -- way, any may be the next. The counter of ids is taken not to come round.
  pub data Step (d : Daemon V) : Daemon V → Type 0 where
    takes_id :
        (kind : String) (params : V)
        → suc d.scheduler.next_id < 2 ^ 64
        → Step d (take_id kind params d)
    inserts :
        (before after : List (Call V)) (job : Job V)
        → d.calls ≡ before ++ recording job ∷ after
        → Step d (insert_queued job (before ++ sending job ∷ after) d)
    sends :
        (before after : List (Call V)) (job : Job V)
        → d.calls ≡ before ++ sending job ∷ after
        → Step d (try_send job (before ++ after) d)
    looks : (id : ℕ) → Step d (look id d)
    answers :
        (before after : List (Call V)) (id : ℕ) (state : Option JobState)
        → d.calls ≡ before ++ answering id state ∷ after
        → Step d (act_on id state (before ++ after) d)
    receives :
        (job : Job V) (rest : List (Job V))
        → d.phase ≡ idle
        → d.scheduler.queue ≡ job ∷ rest
        → Step d (receive job rest d)
    checks : (job : Job V) → d.phase ≡ received job → Step d (check job d)
    leaves : (job : Job V) → d.phase ≡ leaving job → Step d (leave job d)
    begins : (job : Job V) → d.phase ≡ checked job → Step d (begin job d)
    listens : (job : Job V) → d.phase ≡ begun job → Step d (listen job d)
    stops :
        (job : Job V) (receivers : ℕ)
        → d.phase ≡ working job
        → get_stop job.id d.scheduler.stops ≡ some (record { value = true; receivers = receivers })
        → Step d (stop job d)
    concludes :
        (job : Job V) (outcome : Result String V)
        → d.phase ≡ working job
        → Step d (conclude job outcome d)
    settles :
        (job : Job V) (outcome : Result String V)
        → d.phase ≡ ending job outcome
        → Step d (settle job outcome d)
    halts : d.phase ≡ idle → Step d (halt d)

  pub data Steps (d : Daemon V) : Daemon V → Type 0 where
    stay : Steps d d
    then_step : {e f : Daemon V} → Steps d e → Step e f → Steps d f

  abbrev pub booted : Daemon V
  booted = record { scheduler = new; phase = idle; events = []; calls = [] }
