-- ===== src/Daemon/Worker/Stays.antt =====
-- src/daemon/worker.rs with src/daemon/scheduler.rs: a job whose end is recorded, and how often a
-- job waits.
use mathlib.Core.Path.{subst}
use navin_engine.Prelude.{
  ℕ, ◌+◌, ◌≡◌, refl, ap, ◌∙◌, arith, String, true, Option, none, some, List, [], ◌∷◌, ◌++◌, ◌==◌,
  Bool-cases, inl, inr, Result, ok, err,
}
use navin_engine.Daemon.Scheduler.{
  JobState, Job, JobRecord, queued, running, completed, failed, cancelled, state_of, set_in,
  cancel_in, is_cancelled,
}
use navin_engine.Daemon.Scheduler.Records.{state_at, state_at-insert_record, state_at-set_in}
use navin_engine.Daemon.Worker.{
  Call, recording, sending, answering, Daemon, check, settle, leave, begin, listen, stop, conclude,
  halt, take_id, insert_queued, try_send, look, act_on, Step, takes_id, inserts, sends, looks,
  answers, receives, checks, leaves, begins, listens, stops, concludes, settles, halts, Steps, stay,
  then_step, booted,
}
use navin_engine.Daemon.Worker.Owned.{one_if, is_over, in_calls, in_phase, Owned, in_calls-++}
use navin_engine.Daemon.Worker.Lasts.{step-Owned, runs-Owned}

other-set_in :
    (id : ℕ) (s : JobState) (i : ℕ) (t : JobState) (detail : Option String) (rs : List JobRecord)
    → one_if id i ≡ 0
    → state_at id rs ≡ some s
    → state_at id (set_in i t detail rs) ≡ some s
other-set_in id s i t detail rs ne h =
    let law = state_at-set_in id i t detail rs in ground (arith, law, ne, h)

abbrev late_at : ℕ → ℕ → Option JobState → ℕ
late_at id i (some queued) = one_if id i
late_at id i _ = 0

other-late_at : (id i : ℕ) (state : Option JobState) → one_if id i ≡ 0 → late_at id i state ≡ 0
other-late_at id i none h = refl
other-late_at id i (some queued) h = h
other-late_at id i (some running) h = refl
other-late_at id i (some completed) h = refl
other-late_at id i (some failed) h = refl
other-late_at id i (some cancelled) h = refl

over-late_at : (id i : ℕ) (state : Option JobState) → is_over state ≡ true → late_at id i state ≡ 0
over-late_at id i none h = ground (arith, h)
over-late_at id i (some queued) h = ground (arith, h)
over-late_at id i (some running) h = refl
over-late_at id i (some completed) h = refl
over-late_at id i (some failed) h = refl
over-late_at id i (some cancelled) h = refl

module _ {V : Type 0} where
  abbrev late_call : ℕ → Call V → ℕ
  late_call id (answering i state) = late_at id i state
  late_call id (recording job) = 0
  late_call id (sending job) = 0

  -- The calls under way that have read that the job waits, and are about to cancel it.
  abbrev pub late_calls : ℕ → List (Call V) → ℕ
  late_calls id [] = 0
  late_calls id (c ∷ cs) = late_call id c + late_calls id cs

  late_calls-++ :
      (id : ℕ) (before after : List (Call V)) (c : Call V)
      → late_calls id (before ++ c ∷ after) ≡ late_call id c + late_calls id (before ++ after)
  late_calls-++ id [] after c = refl
  late_calls-++ id (b ∷ before) after c =
      let ih = late_calls-++ id before after c in ground (arith, ih)

  module _ (id : ℕ) (s : JobState) (end : is_over (some s) ≡ true) where
    -- The record says that the job is over, and no call is about to cancel it.
    abbrev Over : Daemon V → Type 0
    Over d = (state_of id d.scheduler ≡ some s) × (late_calls id d.calls ≡ 0)

    look-Over : (i : ℕ) (d : Daemon V) → Over d → Over (look i d)
    unfolding look
    look-Over i d (h, l) =
        let state = state_of i d.scheduler in
        (
          h,
          elim (Bool-cases (i == id)) [
            | inl same ↦
                let mine =
                  subst (λ (x : ℕ). is_over (state_of x d.scheduler) ≡ true) (ground (arith, same))
                    (ap is_over h ∙ end) in
                let none_late = over-late_at id i state mine in ground (arith, none_late, l)
            | inr other ↦
                let none_late = other-late_at id i state (ground (arith, other)) in
                ground (arith, none_late, l)
          ],
        )

    act_on-Over :
        (i : ℕ) (state : Option JobState) (calls : List (Call V)) (d : Daemon V)
        → state_of id d.scheduler ≡ some s
        → late_call id (answering i state) ≡ 0
        → state_of id (cancel_in i d.scheduler state).1 ≡ some s
    act_on-Over i none calls d h l = h
    act_on-Over i (some queued) calls d h l =
        other-set_in id s i cancelled (some "cancelled before it started") d.scheduler.records l h
    act_on-Over i (some running) calls d h l = h
    act_on-Over i (some completed) calls d h l = h
    act_on-Over i (some failed) calls d h l = h
    act_on-Over i (some cancelled) calls d h l = h

    check-Over : (job : Job V) (d : Daemon V) → Over d → Over (check job d)
    unfolding check
    check-Over job d h = elim (Bool-cases (is_cancelled job.id d.scheduler)) [
      | inl b ↦ rw b h
      | inr b ↦ rw b h
    ]

    settle-Over :
        (job : Job V) (outcome : Result String V) (d : Daemon V)
        → one_if id job.id ≡ 0
        → Over d
        → Over (settle job outcome d)
    unfolding settle
    settle-Over job (ok v) d ne (h, l) =
        (other-set_in id s job.id completed none d.scheduler.records ne h, l)
    settle-Over job (err m) d ne (h, l) =
        (other-set_in id s job.id failed (some m) d.scheduler.records ne h, l)

    step-Over : (d e : Daemon V) → Step d e → Owned d → Over d → Over e
    unfolding take_id insert_queued try_send act_on leave begin listen stop conclude halt
    step-Over d _ (takes_id kind params fits) o (h, l) = (h, ground (arith, l))
    step-Over d _ (inserts before after job c) o (h, l) =
        let nowhere = o.over id (ground (arith, h, end)) in
        let a = ap (in_calls id) c in
        let b = in_calls-++ id before after (recording job) in
        let law =
          state_at-insert_record id
            (record { id = job.id; kind = job.kind; state = queued; detail = none })
            d.scheduler.records in
        let u = ap (late_calls id) c in
        let v = late_calls-++ id before after (recording job) in
        let w = late_calls-++ id before after (sending job) in
        (ground (arith, law, nowhere, a, b, h), ground (arith, u, v, w, l))
    step-Over d _ (sends before after job c) o (h, l) =
        let u = ap (late_calls id) c in
        let v = late_calls-++ id before after (sending job) in (h, ground (arith, u, v, l))
    step-Over d _ (looks i) o h = look-Over i d h
    step-Over d _ (answers before after i state c) o (h, l) =
        let u = ap (late_calls id) c in
        let v = late_calls-++ id before after (answering i state) in
        (
          act_on-Over i state (before ++ after) d h (ground (arith, u, v, l)),
          ground (arith, u, v, l),
        )
    step-Over d _ (receives job rest p q) o h = h
    step-Over d _ (checks job p) o h = check-Over job d h
    step-Over d _ (leaves job p) o h = h
    step-Over d _ (begins job p) o (h, l) =
        let nowhere = o.over id (ground (arith, h, end)) in
        let a = ap (in_phase id) p in
        (
          other-set_in id s job.id running none d.scheduler.records (ground (arith, nowhere, a)) h,
          l,
        )
    step-Over d _ (listens job p) o h = h
    step-Over d _ (stops job n p v) o (h, l) =
        let nowhere = o.over id (ground (arith, h, end)) in
        let a = ap (in_phase id) p in
        (
          other-set_in id s job.id cancelled (some "stopped on request") d.scheduler.records
              (ground (arith, nowhere, a)) h,
          l,
        )
    step-Over d _ (concludes job outcome p) o h = h
    step-Over d _ (settles job outcome p) o h =
        let nowhere = o.over id (ground (arith, h.0, end)) in
        let a = ap (in_phase id) p in settle-Over job outcome d (ground (arith, nowhere, a)) h
    step-Over d _ (halts p) o h = h

    runs-Over : (d f : Daemon V) → Owned d → Steps d f → Over d → Owned f × Over f
    runs-Over d _ o stay h = (o, h)
    runs-Over d f o (then_step {e} run step) h =
        let (o', h') = runs-Over d e o run h in (step-Owned e f step o', step-Over e f step o' h')

  -- In a run of the daemon a job recorded as Completed or Failed stays recorded so, unless a call of
  -- `cancel` is under way that read, before the end was recorded, that the job waits.
  pub finished-stays :
      (d e : Daemon V) (id : ℕ) (s : JobState)
      → Steps booted d
      → Steps d e
      → is_over (some s) ≡ true
      → state_of id d.scheduler ≡ some s
      → late_calls id d.calls ≡ 0
      → state_of id e.scheduler ≡ some s
  finished-stays d e id s run more end h calm =
      (runs-Over id s end d e (runs-Owned d run) more (h, calm)).1.0
