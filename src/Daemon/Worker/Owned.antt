-- ===== src/Daemon/Worker/Owned.antt =====
-- src/daemon/worker.rs with src/daemon/scheduler.rs: who holds a job. A job is with the session that
-- enqueues it, in the queue, or with the worker, at one of these at a time; when its end is
-- recorded it is nowhere.
use navin_engine.Prelude.{
  ℕ, ◌+◌, ◌≤◌, ◌<◌, ◌≡◌, refl, ap, arith, String, Bool, true, false, Option, none, some, List, [],
  ◌∷◌, ◌++◌, ◌==◌, Bool-cases, inl, inr, if◌then◌else◌,
}
use navin_engine.Daemon.Scheduler.{
  JobState, Job, JobRecord, queued, running, completed, failed, cancelled, Scheduler, set_in,
  state_of, insert_record, cancel_in,
}
use navin_engine.Daemon.Scheduler.Records.{
  state_at, replaced, state_at-insert_record, state_at-set_in,
}
use navin_engine.Daemon.Worker.{
  Phase, idle, halted, received, checked, begun, working, leaving, ending, Call, recording, sending,
  answering, Daemon,
}

abbrev pub one_if : ℕ → ℕ → ℕ
one_if id i = if i == id then 1 else 0

-- The end of the job is recorded.
abbrev pub is_over : Option JobState → Bool
is_over (some completed) = true
is_over (some failed) = true
is_over _ = false

replaced-is_over :
    (s : JobState) (old : Option JobState)
    → is_over (some s) ≡ false
    → is_over (replaced s old) ≡ false
replaced-is_over s none h = refl
replaced-is_over s (some x) h = h

pub set_in-is_over :
    (id i : ℕ) (s : JobState) (detail : Option String) (rs : List JobRecord)
    → is_over (some s) ≡ false
    → is_over (state_at id (set_in i s detail rs)) ≡ true
    → is_over (state_at id rs) ≡ true
set_in-is_over id i s detail rs not_over h =
    let law = state_at-set_in id i s detail rs in
    let off = replaced-is_over s (state_at id rs) not_over in ground (arith, ap is_over law, off, h)

pub insert_record-is_over :
    (id : ℕ) (r : JobRecord) (rs : List JobRecord)
    → r.state ≡ queued
    → is_over (state_at id (insert_record r rs)) ≡ true
    → is_over (state_at id rs) ≡ true
insert_record-is_over id r rs q h =
    let law = state_at-insert_record id r rs in
    elim (Bool-cases (r.id == id)) [
      | inl same ↦ ground (arith, ap is_over law, same, q, h)
      | inr other ↦ ground (arith, ap is_over law, other, h)
    ]

module _ {V : Type 0} where
  abbrev pub in_call : ℕ → Call V → ℕ
  in_call id (recording job) = one_if id job.id
  in_call id (sending job) = one_if id job.id
  in_call id (answering i state) = 0

  abbrev pub in_calls : ℕ → List (Call V) → ℕ
  in_calls id [] = 0
  in_calls id (c ∷ cs) = in_call id c + in_calls id cs

  -- How often the job waits.
  abbrev pub in_queue : ℕ → List (Job V) → ℕ
  in_queue id [] = 0
  in_queue id (j ∷ js) = one_if id j.id + in_queue id js

  abbrev pub in_phase : ℕ → Phase V → ℕ
  in_phase id idle = 0
  in_phase id halted = 0
  in_phase id (leaving job) = 0
  in_phase id (received job) = one_if id job.id
  in_phase id (checked job) = one_if id job.id
  in_phase id (begun job) = one_if id job.id
  in_phase id (working job) = one_if id job.id
  in_phase id (ending job outcome) = one_if id job.id

  -- At how many places the job is.
  abbrev pub places : ℕ → Daemon V → ℕ
  places id d = in_calls id d.calls + (in_queue id d.scheduler.queue + in_phase id d.phase)

  pub record Owned (d : Daemon V) : Type 0 where
    pub once : (id : ℕ) → places id d ≤ 1
    pub unused : (id : ℕ) → d.scheduler.next_id ≤ id → places id d ≡ 0
    pub over : (id : ℕ) → is_over (state_of id d.scheduler) ≡ true → places id d ≡ 0
    pub known : (id : ℕ) → is_over (state_of id d.scheduler) ≡ true → id < d.scheduler.next_id

  pub in_calls-++ :
      (id : ℕ) (before after : List (Call V)) (c : Call V)
      → in_calls id (before ++ c ∷ after) ≡ in_call id c + in_calls id (before ++ after)
  in_calls-++ id [] after c = refl
  in_calls-++ id (b ∷ before) after c = let ih = in_calls-++ id before after c in ground (arith, ih)

  pub in_queue-snoc :
      (id : ℕ) (queue : List (Job V)) (job : Job V)
      → in_queue id (queue ++ job ∷ []) ≡ in_queue id queue + one_if id job.id
  in_queue-snoc id [] job = ground arith
  in_queue-snoc id (j ∷ js) job = let ih = in_queue-snoc id js job in ground (arith, ih)

  -- The job is at no more places, and no end is recorded.
  pub keep :
      (d e : Daemon V)
      → Owned d
      → ((id : ℕ) → places id e ≤ places id d)
      → e.scheduler.next_id ≡ d.scheduler.next_id
      → ((id : ℕ)
          → is_over (state_of id e.scheduler) ≡ true
          → is_over (state_of id d.scheduler) ≡ true)
      → Owned e
  keep d e o fewer same ends = record {
    once = λ id. let a = o.once id in let b = fewer id in ground (arith, a, b);
    unused = λ id h.
        let a = o.unused id (ground (arith, same, h)) in let b = fewer id in ground (arith, a, b);
    over = λ id h. let a = o.over id (ends id h) in let b = fewer id in ground (arith, a, b);
    known = λ id h. let a = o.known id (ends id h) in ground (arith, same, a);
  }

  pub cancel_in-is_over :
      (i id : ℕ) (s : Scheduler V) (state : Option JobState)
      → is_over (state_of i (cancel_in id s state).1) ≡ true
      → is_over (state_of i s) ≡ true
  cancel_in-is_over i id s none h = h
  cancel_in-is_over i id s (some queued) h =
      set_in-is_over i id cancelled (some "cancelled before it started") s.records refl h
  cancel_in-is_over i id s (some running) h = h
  cancel_in-is_over i id s (some completed) h = h
  cancel_in-is_over i id s (some failed) h = h
  cancel_in-is_over i id s (some cancelled) h = h

  -- `cancel` touches neither the queue nor the counter.
  pub cancel_in-rest :
      (id : ℕ) (s : Scheduler V) (state : Option JobState)
      → ((cancel_in id s state).1.queue ≡ s.queue) × ((cancel_in id s state).1.next_id ≡ s.next_id)
  cancel_in-rest id s none = (refl, refl)
  cancel_in-rest id s (some queued) = (refl, refl)
  cancel_in-rest id s (some running) = (refl, refl)
  cancel_in-rest id s (some completed) = (refl, refl)
  cancel_in-rest id s (some failed) = (refl, refl)
  cancel_in-rest id s (some cancelled) = (refl, refl)
