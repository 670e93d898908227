-- ===== src/Daemon/Scheduler/Cancel.antt =====
-- src/daemon/scheduler.rs, `cancel`: what it does to a job in each state.
use mathlib.Core.Path.{subst, sym}
use navin_engine.Prelude.{
  ◌<◌, ◌==◌, inl, inr, Bool-cases, ℕ, ◌≡◌, ◌≢◌, refl, arith, String, true, false, Option, none,
  some, List, [], ◌∷◌, Result, ok, err,
}
use navin_engine.Daemon.Scheduler.{
  JobState, queued, running, completed, failed, cancelled, Scheduler, state_of, cancel, cancel_in,
  get_stop, send_stop, Switch, send_true, fresh_switch,
}
use navin_engine.Daemon.Scheduler.Records.{state_at-set_in}

-- The switch that is sent to, by the one that was there.
abbrev sent : Option Switch → Switch
sent none = send_true fresh_switch
sent (some x) = send_true x

get_stop-send_stop :
    (id : ℕ) (xs : List (ℕ × Switch)) → get_stop id (send_stop id xs) ≡ some (sent (get_stop id xs))
get_stop-send_stop id [] = ground arith
get_stop-send_stop id (x ∷ xs) =
    let ih = get_stop-send_stop id xs in
    elim (Bool-cases (x.0 == id)) [ inl h ↦ rw (h, h) refl | inr h ↦ rw (h, h) ih ]

-- A stop that is asked reaches the switch when somebody listens to it; otherwise the switch says
-- what it said, and a new one does not say stop.
abbrev pub Told : Option Switch → Option Switch → Type 0
Told none now = now ≡ some (record { value = false; receivers = 0 })
Told (some x) now =
    (x.receivers ≡ 0 → now ≡ some x)
    × (0 < x.receivers → now ≡ some (record { value = true; receivers = x.receivers }))

sent-Told : (old : Option Switch) → Told old (some (sent old))
sent-Told none = refl
sent-Told (some x) = (λ h. ground (arith, h), λ h. ground (arith, h))

module _ {V : Type 0} where
  others :
      (id i : ℕ) (s : Scheduler V) (state : Option JobState)
      → i ≢ id
      → state_of i (cancel_in id s state).1 ≡ state_of i s
  others id i s none ne = refl
  others id i s (some queued) ne =
      ground (arith, state_at-set_in i id cancelled (some "cancelled before it started") s.records)
  others id i s (some running) ne = refl
  others id i s (some completed) ne = refl
  others id i s (some failed) ne = refl
  others id i s (some cancelled) ne = refl

  -- What `cancel` answers, and does, by the state of the job's record.
  abbrev pub Answers :
      ℕ → Scheduler V → Option JobState → Result String JobState × Scheduler V → Type 0
  Answers id s (some queued) r = (r.0 ≡ ok queued) × (state_of id r.1 ≡ some cancelled)
  Answers id s (some running) r =
      (r.0 ≡ ok running)
      × (state_of id r.1 ≡ some running)
      × Told (get_stop id s.stops) (get_stop id r.1.stops)
  Answers id s _ r = (r.1 ≡ s) × ((e : String) × (r.0 ≡ err e))

  cancel_in-Answers :
      (id : ℕ) (s : Scheduler V) (state : Option JobState)
      → state_of id s ≡ state
      → Answers id s state (cancel_in id s state)
  cancel_in-Answers id s none g = (refl, (_, refl))
  cancel_in-Answers id s (some queued) g =
      let law = state_at-set_in id id cancelled (some "cancelled before it started") s.records in
      (refl, ground (arith, law, g))
  cancel_in-Answers id s (some running) g = (
    refl,
    g,
    subst (Told (get_stop id s.stops)) (sym (get_stop-send_stop id s.stops))
        (sent-Told (get_stop id s.stops)),
  )
  cancel_in-Answers id s (some completed) g = (refl, (_, refl))
  cancel_in-Answers id s (some failed) g = (refl, (_, refl))
  cancel_in-Answers id s (some cancelled) g = (refl, (_, refl))

  -- A call of `cancel` with no other thread in between, on every state of a record. A job that
  -- waits is answered as such and cancelled. One that runs is answered as such and keeps its
  -- record, and its switch then says stop if the worker listens to it, but says what it said if
  -- nobody does. For any other job, or none, it fails and nothing changes. The state of no other
  -- job changes.
  pub cancel-Answers :
      (id i : ℕ) (s : Scheduler V)
      → i ≢ id
      → Answers id s (state_of id s) (cancel id s) × (state_of i (cancel id s).1 ≡ state_of i s)
  unfolding cancel
  cancel-Answers id i s ne =
      (cancel_in-Answers id s (state_of id s) refl, others id i s (state_of id s) ne)
