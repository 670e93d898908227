-- ===== src/Daemon/Worker/Runs.antt =====
-- src/daemon/worker.rs with src/daemon/scheduler.rs: what holds in every state that steps of the
-- sessions and of the worker lead to.
use mathlib.Core.Path.{subst}
use navin_engine.Prelude.{
  ℕ, ◌≡◌, ◌≢◌, refl, ap, arith, String, Option, none, some, List, Result, ok, err, ◌==◌, Bool-cases,
  inl, inr,
}
use navin_engine.Daemon.Scheduler.{
  JobState, Job, JobRecord, queued, running, completed, failed, cancelled, Scheduler, state_of,
  insert_record, set_in, cancel_in, is_cancelled,
}
use navin_engine.Daemon.Scheduler.Records.{
  state_at, replaced, state_at-insert_record, state_at-set_in,
}
use navin_engine.Daemon.Worker.{
  Phase, idle, halted, received, checked, begun, working, leaving, ending, Daemon, check, settle,
  leave, begin, listen, stop, conclude, halt, take_id, insert_queued, try_send, look, act_on, Step,
  takes_id, inserts, sends, looks, answers, receives, checks, leaves, begins, listens, stops,
  concludes, settles, halts, Steps, stay, then_step, booted,
}

-- The job that the worker started, and whose end it has still to record.
abbrev pub in_hand : {V : Type 0} → Phase V → Option ℕ
in_hand (begun job) = some job.id
in_hand (working job) = some job.id
in_hand (ending job outcome) = some job.id
in_hand _ = none

-- A record that says Running is that of the job in hand.
abbrev Single : {V : Type 0} → Phase V → List JobRecord → Type 0
Single phase rs = (id : ℕ) → state_at id rs ≡ some running → in_hand phase ≡ some id

replaced-running :
    (s : JobState) (old : Option JobState) → s ≢ running → replaced s old ≢ some running
replaced-running s none ne = λ h. ground (arith, h)
replaced-running s (some x) ne = λ h. ne (ground (arith, h))

set_in-running :
    (id i : ℕ) (s : JobState) (detail : Option String) (rs : List JobRecord)
    → s ≢ running
    → state_at id (set_in i s detail rs) ≡ some running
    → (id ≢ i) × (state_at id rs ≡ some running)
set_in-running id i s detail rs ne h =
    let law = state_at-set_in id i s detail rs in
    let no = replaced-running s (state_at id rs) ne in
    (λ e. no (ground (arith, e, law, h)), ground (arith, law, h, no))

module _ {V : Type 0} where
  -- A record is set to anything but Running.
  set_in-Single :
      (phase : Phase V) (i : ℕ) (s : JobState) (detail : Option String) (rs : List JobRecord)
      → s ≢ running
      → Single phase rs
      → Single phase (set_in i s detail rs)
  set_in-Single phase i s detail rs ne single =
      λ id h. single id (set_in-running id i s detail rs ne h).1

  -- The job in hand is set to anything but Running, and it is in hand no longer.
  put_down :
      (phase next : Phase V) (i : ℕ) (s : JobState) (detail : Option String) (rs : List JobRecord)
      → s ≢ running
      → in_hand phase ≡ some i
      → Single phase rs
      → Single next (set_in i s detail rs)
  put_down phase next i s detail rs ne hand single = λ id h.
      let (other, was) = set_in-running id i s detail rs ne h in
      let mine = single id was in ground (arith, other, mine, hand)

  cancel_in-Single :
      (phase : Phase V) (id : ℕ) (s : Scheduler V) (state : Option JobState)
      → Single phase s.records
      → Single phase (cancel_in id s state).1.records
  cancel_in-Single phase id s none single = single
  cancel_in-Single phase id s (some queued) single =
      set_in-Single phase id cancelled (some "cancelled before it started") s.records
        (λ e. ground (arith, e)) single
  cancel_in-Single phase id s (some running) single = single
  cancel_in-Single phase id s (some completed) single = single
  cancel_in-Single phase id s (some failed) single = single
  cancel_in-Single phase id s (some cancelled) single = single

  -- Nothing is in hand, and then something may be.
  take_up :
      (phase next : Phase V) (rs : List JobRecord)
      → in_hand phase ≡ none
      → Single phase rs
      → Single next rs
  take_up phase next rs nothing single =
      λ id h. let mine = single id h in ground (arith, mine, nothing)

  insert_record-Single :
      (phase : Phase V) (r : JobRecord) (rs : List JobRecord)
      → r.state ≡ queued
      → Single phase rs
      → Single phase (insert_record r rs)
  insert_record-Single phase r rs q single =
      λ id h. let law = state_at-insert_record id r rs in single id (ground (arith, law, h, q))

  begin-Single :
      (phase : Phase V) (job : Job V) (rs : List JobRecord)
      → in_hand phase ≡ none
      → Single phase rs
      → Single (begun job) (set_in job.id running none rs)
  begin-Single phase job rs nothing single = λ id h.
      let law = state_at-set_in id job.id running none rs in
      let mine = single id in
      elim (Bool-cases (job.id == id)) [
        | inl same ↦ ground (arith, same)
        | inr other ↦ let old = mine (ground (arith, law, h, other)) in ground (arith, old, nothing)
      ]

  settle-Single :
      (d : Daemon V) (job : Job V) (outcome : Result String V)
      → d.phase ≡ ending job outcome
      → Single d.phase d.scheduler.records
      → Single (settle job outcome d).phase (settle job outcome d).scheduler.records
  unfolding settle
  settle-Single d job (ok v) p single =
      put_down d.phase idle job.id completed none d.scheduler.records (λ e. ground (arith, e))
        (ap in_hand p) single
  settle-Single d job (err m) p single =
      put_down d.phase idle job.id failed (some m) d.scheduler.records (λ e. ground (arith, e))
        (ap in_hand p) single

  check-Single :
      (d : Daemon V) (job : Job V)
      → d.phase ≡ received job
      → Single d.phase d.scheduler.records
      → Single (check job d).phase (check job d).scheduler.records
  unfolding check
  check-Single d job p single = elim (Bool-cases (is_cancelled job.id d.scheduler)) [
    | inl h ↦ rw h (take_up d.phase (leaving job) d.scheduler.records (ap in_hand p) single)
    | inr h ↦ rw h (take_up d.phase (checked job) d.scheduler.records (ap in_hand p) single)
  ]

  step-Single :
      (d e : Daemon V)
      → Step d e
      → Single d.phase d.scheduler.records
      → Single e.phase e.scheduler.records
  unfolding take_id insert_queued try_send look act_on leave begin listen stop conclude halt
  step-Single d _ (takes_id kind params fits) single = single
  step-Single d _ (inserts before after job c) single =
      insert_record-Single d.phase _ d.scheduler.records refl single
  step-Single d _ (sends before after job c) single = single
  step-Single d _ (looks id) single = single
  step-Single d _ (answers before after id state c) single =
      cancel_in-Single d.phase id d.scheduler state single
  step-Single d _ (receives job rest p q) single =
      take_up d.phase (received job) d.scheduler.records (ap in_hand p) single
  step-Single d _ (checks job p) single = check-Single d job p single
  step-Single d _ (leaves job p) single =
      take_up d.phase idle d.scheduler.records (ap in_hand p) single
  step-Single d _ (begins job p) single =
      begin-Single d.phase job d.scheduler.records (ap in_hand p) single
  step-Single d _ (listens job p) single =
      subst
        (λ (x : Option ℕ). (id : ℕ) → state_at id d.scheduler.records ≡ some running → x ≡ some id)
        (ap in_hand p) single
  step-Single d _ (stops job n p v) single =
      put_down d.phase (leaving job) job.id cancelled (some "stopped on request")
        d.scheduler.records (λ e. ground (arith, e)) (ap in_hand p) single
  step-Single d _ (concludes job outcome p) single =
      subst
        (λ (x : Option ℕ). (id : ℕ) → state_at id d.scheduler.records ≡ some running → x ≡ some id)
        (ap in_hand p) single
  step-Single d _ (settles job outcome p) single = settle-Single d job outcome p single
  step-Single d _ (halts p) single =
      take_up d.phase halted d.scheduler.records (ap in_hand p) single

  runs-Single : (d : Daemon V) → Steps booted d → Single d.phase d.scheduler.records
  runs-Single d stay = λ id h. ground (arith, h)
  runs-Single d (then_step {e} run step) = step-Single e d step (runs-Single e run)

  -- In every state that steps from the start lead to, a record that says Running is that of the job
  -- the worker has in hand: at most one job runs at a time, whatever the sessions do in between.
  pub one_at_a_time :
      (d : Daemon V) (id : ℕ)
      → Steps booted d
      → state_of id d.scheduler ≡ some running
      → in_hand d.phase ≡ some id
  one_at_a_time d id run h = runs-Single d run id h
