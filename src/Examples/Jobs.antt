-- ===== src/Examples/Jobs.antt =====
-- Two jobs enqueued, and the first one carried through.
use navin_engine.Prelude.{
  ◌≤◌, ◌<◌, false, ◌≡◌, ◌≢◌, refl, arith, some, List, [], ◌∷◌, ok, length, ltb,
}
use navin_engine.Daemon.Scheduler.{
  Job, running, completed, queue_depth, state_of, enqueue, cancel, queued, cancelled,
}
use navin_engine.Daemon.Scheduler.Enqueue.{Enqueued, enqueue-Enqueued}
use navin_engine.Daemon.Worker.Race.{after_cancel, cancel_too_late}
use navin_engine.Daemon.Scheduler.Cancel.{Answers, cancel-Answers}
use navin_engine.Daemon.Worker.{
  settles, concludes, looks, answers, settle, conclude, look, act_on, Call, sending, halted, Daemon,
  take_id, insert_queued, try_send, receive, check, begin, listen, start, takes_id, inserts, sends,
  receives, checks, begins, listens, Steps, stay, then_step, booted,
}
use navin_engine.Daemon.Worker.Drains.{Rests, worker-Rests}
use navin_engine.Daemon.Worker.Runs.{in_hand, one_at_a_time}
use navin_engine.Daemon.Worker.Owned.{is_over, in_queue, in_phase}
use navin_engine.Daemon.Worker.Waits.{queue-Owned}
use navin_engine.Daemon.Worker.Stays.{late_calls, finished-stays}

abbrev first : Job Unit
first = record { id = 1; kind = "fix"; params = tt }

abbrev second : Job Unit
second = record { id = 2; kind = "fix"; params = tt }

abbrev no_calls : List (Call Unit)
no_calls = []

-- A session enqueues a job, with nothing in between.
abbrev sent : Job Unit → Daemon Unit → Daemon Unit
sent job d = try_send job [] (insert_queued job (sending job ∷ []) (take_id "fix" tt d))

abbrev two_queued : Daemon Unit
two_queued = sent second (sent first booted)

to_one_queued : Steps booted (sent first booted)
unfolding take_id insert_queued try_send
to_one_queued =
    then_step
      (then_step (then_step stay (takes_id "fix" tt (ground arith)))
        (inserts no_calls [] first refl))
      (sends no_calls [] first refl)

to_two_queued : Steps booted two_queued
unfolding take_id insert_queued try_send
to_two_queued =
    then_step
      (then_step (then_step to_one_queued (takes_id "fix" tt (ground arith)))
        (inserts no_calls [] second refl))
      (sends no_calls [] second refl)

abbrev taken : Daemon Unit
taken = receive first (second ∷ []) two_queued

abbrev working_on_first : Daemon Unit
working_on_first = start first (check first taken)

to_working : Steps booted working_on_first
unfolding take_id insert_queued try_send check begin listen
to_working =
    then_step
      (then_step
        (then_step (then_step to_two_queued (receives first (second ∷ []) refl refl))
          (checks first refl))
        (begins first refl))
      (listens first refl)

first_runs : state_of 1 working_on_first.scheduler ≡ some running
unfolding take_id insert_queued try_send check begin listen
first_runs = refl

one_at_a_time_example : in_hand working_on_first.phase ≡ some 1
one_at_a_time_example = one_at_a_time working_on_first 1 to_working first_runs

cancel-Answers_example :
    Answers 1 two_queued.scheduler (state_of 1 two_queued.scheduler) (cancel 1 two_queued.scheduler)
    × (state_of 2 (cancel 1 two_queued.scheduler).1 ≡ state_of 2 two_queued.scheduler)
cancel-Answers_example = cancel-Answers 1 2 two_queued.scheduler (ground arith)

one_is_taken : 1 ≢ two_queued.scheduler.next_id
unfolding take_id insert_queued try_send
one_is_taken = ground arith

enqueue-Enqueued_example :
    Enqueued "fix" tt two_queued.scheduler
      (ltb (length two_queued.scheduler.queue) queue_depth)
      (enqueue "fix" tt two_queued.scheduler)
    × (state_of two_queued.scheduler.next_id (enqueue "fix" tt two_queued.scheduler).1
        ≡ some queued)
    × (state_of 1 (enqueue "fix" tt two_queued.scheduler).1 ≡ state_of 1 two_queued.scheduler)
enqueue-Enqueued_example = enqueue-Enqueued "fix" tt two_queued.scheduler 1 one_is_taken

first_waits : state_of 1 taken.scheduler ≡ some queued
unfolding take_id insert_queued try_send
first_waits = refl

cancel_too_late_example :
    ((cancel 1 taken.scheduler).0 ≡ ok queued)
    × (state_of 1 (after_cancel 1 taken).scheduler ≡ some cancelled)
    × (state_of 1 (start first (after_cancel 1 taken)).scheduler ≡ some running)
cancel_too_late_example = cancel_too_late taken first first_waits

is_live : working_on_first.phase ≢ halted
unfolding listen
is_live = λ e. ground (arith, e)

worker-Rests_example : Rests [] working_on_first
worker-Rests_example = worker-Rests working_on_first is_live

queue-Owned_example :
    (length two_queued.scheduler.queue ≤ queue_depth)
    × (in_queue 2 two_queued.scheduler.queue ≤ 1)
    × (0 < in_queue 2 two_queued.scheduler.queue
        → (2 < two_queued.scheduler.next_id)
          × (in_phase 2 two_queued.phase ≡ 0)
          × (is_over (state_of 2 two_queued.scheduler) ≡ false))
queue-Owned_example = queue-Owned two_queued 2 to_two_queued

abbrev done_first : Daemon Unit
done_first = settle first (ok tt) (conclude first (ok tt) working_on_first)

to_done : Steps booted done_first
unfolding take_id insert_queued try_send check begin listen conclude settle
to_done =
    then_step (then_step to_working (concludes first (ok tt) refl)) (settles first (ok tt) refl)

abbrev cancelled_late : Daemon Unit
cancelled_late = act_on 1 (some completed) [] (look 1 done_first)

to_cancelled_late : Steps done_first cancelled_late
unfolding take_id insert_queued try_send check begin listen conclude settle look
to_cancelled_late =
    then_step (then_step stay (looks 1)) (answers no_calls [] 1 (some completed) refl)

first_done : state_of 1 done_first.scheduler ≡ some completed
unfolding take_id insert_queued try_send check begin listen conclude settle
first_done = refl

is_calm : late_calls 1 done_first.calls ≡ 0
unfolding take_id insert_queued try_send check begin listen conclude settle
is_calm = refl

finished-stays_example : state_of 1 cancelled_late.scheduler ≡ some completed
finished-stays_example =
    finished-stays done_first cancelled_late 1 completed to_done to_cancelled_late refl first_done
      is_calm
