-- ===== src/Daemon/Worker/Lasts.antt =====
-- src/daemon/worker.rs with src/daemon/scheduler.rs: in every run a job is at one place at most.
use navin_engine.Prelude.{
  ℕ, suc, ◌+◌, ◌%◌, ◌^◌, ◌≤◌, ◌<◌, ◌≡◌, ◌≢◌, refl, ap, arith, String, Bool, true, false, Option,
  none, some, List, [], ◌∷◌, ◌++◌, ◌==◌, Bool-cases, inl, inr, if◌then◌else◌, Result, ok, err, ltb,
}
use navin_engine.Daemon.Scheduler.{
  JobState, Job, running, completed, failed, cancelled, state_of, set_in, is_cancelled,
}
use navin_engine.Daemon.Scheduler.Records.{state_at, state_at-set_in}
use navin_engine.Daemon.Worker.{
  idle, received, ending, recording, sending, answering, Daemon, check, settle, leave, begin,
  listen, stop, conclude, halt, take_id, insert_queued, has_room, try_send, look, act_on, Step,
  takes_id, inserts, sends, looks, answers, receives, checks, leaves, begins, listens, stops,
  concludes, settles, halts, Steps, stay, then_step, booted,
}
use navin_engine.Daemon.Worker.Owned.{
  one_if, in_calls, in_queue, in_phase, places, Owned, in_calls-++, in_queue-snoc, keep,
  set_in-is_over, insert_record-is_over, cancel_in-is_over, cancel_in-rest,
}

wrap_lem : (n : ℕ) → suc n < 2 ^ 64 → (n + 1) % 2 ^ 64 ≡ suc n
wrap_lem n h = omega arith

module _ {V : Type 0} where
  take_id-Owned :
      (kind : String) (params : V) (d : Daemon V)
      → suc d.scheduler.next_id < 2 ^ 64
      → Owned d
      → Owned (take_id kind params d)
  unfolding take_id
  take_id-Owned kind params d fits o =
      let wrap = wrap_lem d.scheduler.next_id fits in
      record {
        once = λ id.
            let a = o.once id in
            elim (Bool-cases (d.scheduler.next_id == id)) [
              | inl h ↦ let b = o.unused id (ground (arith, h)) in ground (arith, h, b)
              | inr h ↦ ground (arith, h, a)
            ];
        unused =
            λ id h. let a = o.unused id (ground (arith, wrap, h)) in ground (arith, a, wrap, h);
        over = λ id h. let a = o.over id h in let b = o.known id h in ground (arith, a, b);
        known = λ id h. let b = o.known id h in ground (arith, wrap, b);
      }

  try_send-places :
      (id : ℕ) (room : Bool) (queue : List (Job V)) (job : Job V)
      → in_queue id (if room then queue ++ job ∷ [] else queue)
        ≤ in_queue id queue + one_if id job.id
  try_send-places id true queue job = let e = in_queue-snoc id queue job in ground (arith, e)
  try_send-places id false queue job = ground arith

  check-Owned :
      (job : Job V) (d : Daemon V) → d.phase ≡ received job → Owned d → Owned (check job d)
  unfolding check
  check-Owned job d p o = elim (Bool-cases (is_cancelled job.id d.scheduler)) [
    | inl h ↦
        rw h (keep d _ o (λ id. let e = ap (in_phase id) p in ground (arith, e)) refl (λ id h. h))
    | inr h ↦
        rw h (keep d _ o (λ id. let e = ap (in_phase id) p in ground (arith, e)) refl (λ id h. h))
  ]

  -- The job whose end is recorded was with the worker, and is nowhere now.
  end-Owned :
      (job : Job V) (outcome : Result String V) (s : JobState) (detail : Option String)
      (d e : Daemon V)
      → d.phase ≡ ending job outcome
      → e.calls ≡ d.calls
      → e.phase ≡ idle
      → e.scheduler.queue ≡ d.scheduler.queue
      → e.scheduler.next_id ≡ d.scheduler.next_id
      → e.scheduler.records ≡ set_in job.id s detail d.scheduler.records
      → Owned d
      → Owned e
  end-Owned job outcome s detail d e p c i q n r o =
      let fewer : (id : ℕ) → places id e + one_if id job.id ≡ places id d = λ id.
        let a = ap (in_phase id) p in
        let b = ap (in_phase id) i in
        let u = ap (in_calls id) c in let v = ap (in_queue id) q in ground (arith, a, b, u, v) in
      let same : (id : ℕ) → job.id ≢ id → state_of id e.scheduler ≡ state_of id d.scheduler =
        λ id ne.
          let law = state_at-set_in id job.id s detail d.scheduler.records in
          ground (arith, ap (state_at id) r, law, ne) in
      record {
        once = λ id. let a = fewer id in let b = o.once id in ground (arith, a, b);
        unused = λ id h.
            let a = fewer id in let b = o.unused id (ground (arith, n, h)) in ground (arith, a, b);
        over = λ id h. elim (Bool-cases (job.id == id)) [
          | inl t ↦ let a = fewer id in let b = o.once id in ground (arith, a, b, t)
          | inr t ↦
              let a = fewer id in
              let b = o.over id (ground (arith, same id (ground (arith, t)), h)) in
              ground (arith, a, b)
        ];
        known = λ id h. elim (Bool-cases (job.id == id)) [
          | inl t ↦
              let a = fewer id in
              let b = o.unused id in
              elim (Bool-cases (ltb id d.scheduler.next_id)) [
                | inl l ↦ ground (arith, l, n)
                | inr l ↦ let z = b (ground (arith, l)) in ground (arith, a, z, t)
              ]
          | inr t ↦
              let b = o.known id (ground (arith, same id (ground (arith, t)), h)) in
              ground (arith, n, b)
        ];
      }

  settle-Owned :
      (job : Job V) (outcome : Result String V) (d : Daemon V)
      → d.phase ≡ ending job outcome
      → Owned d
      → Owned (settle job outcome d)
  unfolding settle
  settle-Owned job (ok v) d p o =
      end-Owned job (ok v) completed none d _ p refl refl refl refl refl o
  settle-Owned job (err m) d p o =
      end-Owned job (err m) failed (some m) d _ p refl refl refl refl refl o

  pub step-Owned : (d e : Daemon V) → Step d e → Owned d → Owned e
  unfolding insert_queued try_send look act_on leave begin listen stop conclude halt
  step-Owned d _ (takes_id kind params fits) o = take_id-Owned kind params d fits o
  step-Owned d _ (inserts before after job c) o =
      keep d _ o
        (λ id.
          let a = ap (in_calls id) c in
          let b = in_calls-++ id before after (recording job) in
          let e = in_calls-++ id before after (sending job) in ground (arith, a, b, e))
        refl (λ id h. insert_record-is_over id _ d.scheduler.records refl h)
  step-Owned d _ (sends before after job c) o =
      keep d _ o
        (λ id.
          let a = ap (in_calls id) c in
          let b = in_calls-++ id before after (sending job) in
          let e = try_send-places id (has_room d.phase d.scheduler.queue) d.scheduler.queue job in
          ground (arith, a, b, e))
        refl (λ id h. h)
  step-Owned d _ (looks i) o = keep d _ o (λ id. ground arith) refl (λ id h. h)
  step-Owned d _ (answers before after i state c) o =
      let (q, n) = cancel_in-rest i d.scheduler state in
      keep d _ o
        (λ id.
          let a = ap (in_calls id) c in
          let b = in_calls-++ id before after (answering i state) in
          let e = ap (in_queue id) q in ground (arith, a, b, e))
        n (λ id h. cancel_in-is_over id i d.scheduler state h)
  step-Owned d _ (receives job rest p q) o =
      keep d _ o
        (λ id. let a = ap (in_phase id) p in let b = ap (in_queue id) q in ground (arith, a, b))
        refl (λ id h. h)
  step-Owned d _ (checks job p) o = check-Owned job d p o
  step-Owned d _ (leaves job p) o =
      keep d _ o (λ id. let a = ap (in_phase id) p in ground (arith, a)) refl (λ id h. h)
  step-Owned d _ (begins job p) o =
      keep d _ o (λ id. let a = ap (in_phase id) p in ground (arith, a)) refl
        (λ id h. set_in-is_over id job.id running none d.scheduler.records refl h)
  step-Owned d _ (listens job p) o =
      keep d _ o (λ id. let a = ap (in_phase id) p in ground (arith, a)) refl (λ id h. h)
  step-Owned d _ (stops job n p v) o =
      keep d _ o (λ id. let a = ap (in_phase id) p in ground (arith, a)) refl
        (λ id h.
          set_in-is_over id job.id cancelled (some "stopped on request") d.scheduler.records refl h)
  step-Owned d _ (concludes job outcome p) o =
      keep d _ o (λ id. let a = ap (in_phase id) p in ground (arith, a)) refl (λ id h. h)
  step-Owned d _ (settles job outcome p) o = settle-Owned job outcome d p o
  step-Owned d _ (halts p) o = keep d _ o (λ id. ground arith) refl (λ id h. h)

  pub runs-Owned : (d : Daemon V) → Steps booted d → Owned d
  runs-Owned d stay = record {
    once = λ id. ground arith;
    unused = λ id h. refl;
    over = λ id h. refl;
    known = λ id h. ground (arith, h);
  }
  runs-Owned d (then_step {e} run step) = step-Owned e d step (runs-Owned e run)
