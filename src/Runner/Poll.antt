-- ===== src/Runner/Poll.antt =====
-- src/runner/health.rs and the waits of src/proof: ask again every interval until the answer is
-- yes or the bound has elapsed.
use navin_engine.Prelude.{
  ℕ, zero, suc, ◌-◌, ◌≤◌, ◌<◌, ◌≡◌, Bool, true, false, Option, none, some, ltb,
}

pub data Polled : Type 0 where
  out_of_fuel timed_out : Polled
  answered : ℕ → Polled

module _ {S : Type 0} (now : S → ℕ) (pause : S → S) (probe : S → Bool × S) where
  -- `while started.elapsed() < bound`
  unfoldable pub poll : ℕ → ℕ → ℕ → S → Polled × S
  poll zero started bound s = (out_of_fuel, s)
  poll (suc fuel) started bound s = elim (ltb (now s - started) bound) [
    | false ↦ (timed_out, s)
    | true ↦ elim (probe s).0 [
      | true ↦ (answered (now (probe s).1 - started), (probe s).1)
      | false ↦ poll fuel started bound (pause (probe s).1)
    ]
  ]

  abbrev pub time_of : Polled → Option ℕ
  time_of (answered t) = some t
  time_of _ = none

  -- A pause takes a millisecond at least, so a loop of `bound` rounds and one more is enough.
  abbrev pub wait_until : ℕ → S → Option ℕ × S
  wait_until bound s = let r = poll (suc bound) (now s) bound s in (time_of r.0, r.1)

  -- A clock that a probe does not turn back, and that a pause moves on.
  pub record Ticks : Type 0 where
    pub probed : (s : S) → now s ≤ now (probe s).1
    pub paused : (s : S) → now s < now (pause s)

  -- How a wait may end.
  abbrev pub Ended : ℕ → ℕ → Polled → S → Type 0
  Ended started bound out_of_fuel s = ⊥
  Ended started bound timed_out s = bound ≤ now s - started
  Ended started bound (answered t) s = t ≡ now s - started

  module _ (started bound : ℕ) where
    abbrev rest_of : ℕ → S → Bool → Polled × S
    rest_of fuel s true = (answered (now s - started), s)
    rest_of fuel s false = poll fuel started bound (pause s)

    abbrev round_of : ℕ → S → Bool → Polled × S
    round_of fuel s false = (timed_out, s)
    round_of fuel s true = rest_of fuel (probe s).1 (probe s).0
