-- ===== src/Daemon/Worker/Waits.antt =====
-- src/daemon/worker.rs with src/daemon/scheduler.rs: which jobs wait, and how many.
use navin_engine.Prelude.{
  ℕ, suc, ◌≤◌, ◌<◌, ◌≡◌, refl, ap, arith, String, true, false, List, [], ◌∷◌, ◌++◌, Bool-cases, inl,
  inr, if◌then◌else◌, Result, ok, err, length, ltb,
}
use navin_engine.Daemon.Scheduler.{Job, queue_depth, state_of, is_cancelled}
use navin_engine.Daemon.Worker.{
  Phase, idle, halted, received, checked, begun, working, leaving, ending, Daemon, check, settle,
  leave, begin, listen, stop, conclude, halt, take_id, insert_queued, has_room, try_send, look,
  act_on, Step, takes_id, inserts, sends, looks, answers, receives, checks, leaves, begins, listens,
  stops, concludes, settles, halts, Steps, stay, then_step, booted,
}
use navin_engine.Daemon.Worker.Owned.{is_over, in_queue, in_phase, cancel_in-rest}
use navin_engine.Daemon.Worker.Lasts.{runs-Owned}

module _ {V : Type 0} where
  length-snoc :
      (queue : List (Job V)) (job : Job V) → length (queue ++ job ∷ []) ≡ suc (length queue)
  length-snoc [] job = refl
  length-snoc (j ∷ js) job = ap suc (length-snoc js job)

  has_room-short :
      (phase : Phase V) (queue : List (Job V))
      → has_room phase queue ≡ true
      → length queue < queue_depth
  has_room-short halted queue h = ground (arith, h)
  has_room-short idle queue h = ground (arith, h)
  has_room-short (received job) queue h = ground (arith, h)
  has_room-short (checked job) queue h = ground (arith, h)
  has_room-short (begun job) queue h = ground (arith, h)
  has_room-short (working job) queue h = ground (arith, h)
  has_room-short (leaving job) queue h = ground (arith, h)
  has_room-short (ending job outcome) queue h = ground (arith, h)

  check-queue : (job : Job V) (d : Daemon V) → (check job d).scheduler.queue ≡ d.scheduler.queue
  unfolding check
  check-queue job d = elim (Bool-cases (is_cancelled job.id d.scheduler)) [
    | inl h ↦ rw h refl
    | inr h ↦ rw h refl
  ]

  settle-queue :
      (job : Job V) (outcome : Result String V) (d : Daemon V)
      → (settle job outcome d).scheduler.queue ≡ d.scheduler.queue
  unfolding settle
  settle-queue job (ok v) d = refl
  settle-queue job (err m) d = refl

  try_send-length :
      (phase : Phase V) (queue : List (Job V)) (job : Job V)
      → length queue ≤ queue_depth
      → length (if has_room phase queue then queue ++ job ∷ [] else queue) ≤ queue_depth
  try_send-length phase queue job h = elim (Bool-cases (has_room phase queue)) [
    | inl room ↦
        let e = length-snoc queue job in
        let short = has_room-short phase queue room in rw room (ground (arith, e, short))
    | inr full ↦ rw full h
  ]

  step-length :
      (d e : Daemon V)
      → Step d e
      → length d.scheduler.queue ≤ queue_depth
      → length e.scheduler.queue ≤ queue_depth
  unfolding take_id insert_queued try_send look act_on leave begin listen stop conclude halt
  step-length d _ (takes_id kind params fits) h = h
  step-length d _ (inserts before after job c) h = h
  step-length d _ (sends before after job c) h = try_send-length d.phase d.scheduler.queue job h
  step-length d _ (looks i) h = h
  step-length d _ (answers before after i state c) h =
      let q = ap length (cancel_in-rest i d.scheduler state).0 in ground (arith, q, h)
  step-length d _ (receives job rest p q) h = let l = ap length q in ground (arith, l, h)
  step-length d _ (checks job p) h = let q = ap length (check-queue job d) in ground (arith, q, h)
  step-length d _ (leaves job p) h = h
  step-length d _ (begins job p) h = h
  step-length d _ (listens job p) h = h
  step-length d _ (stops job n p v) h = h
  step-length d _ (concludes job outcome p) h = h
  step-length d _ (settles job outcome p) h =
      let q = ap length (settle-queue job outcome d) in ground (arith, q, h)
  step-length d _ (halts p) h = ground arith

  runs-length : (d : Daemon V) → Steps booted d → length d.scheduler.queue ≤ queue_depth
  runs-length d stay = ground arith
  runs-length d (then_step {e} run step) = step-length e d step (runs-length e run)

  -- In every state that steps from the start lead to, at most 64 jobs wait, none of them twice, and
  -- only such as have an id that was given out; a job that waits is not in the worker's hands, and
  -- its record does not say Completed or Failed.
  pub queue-Owned :
      (d : Daemon V) (id : ℕ)
      → Steps booted d
      → (length d.scheduler.queue ≤ queue_depth)
        × (in_queue id d.scheduler.queue ≤ 1)
        × (0 < in_queue id d.scheduler.queue
            → (id < d.scheduler.next_id)
              × (in_phase id d.phase ≡ 0)
              × (is_over (state_of id d.scheduler) ≡ false))
  queue-Owned d id run =
      let o = runs-Owned d run in
      let once = o.once id in
      (
        runs-length d run,
        ground (arith, once),
        λ h. (
          elim (Bool-cases (ltb id d.scheduler.next_id)) [
            | inl l ↦ ground (arith, l)
            | inr l ↦ let z = o.unused id (ground (arith, l)) in ground (arith, z, h)
          ],
          ground (arith, once, h),
          elim (Bool-cases (is_over (state_of id d.scheduler))) [
            | inl l ↦ let z = o.over id l in ground (arith, z, h)
            | inr l ↦ l
          ],
        ),
      )
