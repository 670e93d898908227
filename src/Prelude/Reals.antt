-- ===== src/Prelude/Reals.antt =====
-- Rust's `f64`, of which antt has no model: the operations that the engine calls are fields of a
-- record, which every definition over floats takes as an argument. The laws that a theorem
-- relies on are records of their own, hypotheses of that theorem.
use Prim.Native.Nat.{ℕ}
use mathlib.Core.Path.{◌≡◌}
use mathlib.Core.Bool.{Bool, true, false}

pub record F64 : Type 1 where
  pub Carrier : Type 0
  pub lt : Carrier → Carrier → Bool  -- `<`
  pub le : Carrier → Carrier → Bool  -- `<=`
  pub add : Carrier → Carrier → Carrier
  pub sub : Carrier → Carrier → Carrier
  pub mul : Carrier → Carrier → Carrier
  pub div : Carrier → Carrier → Carrier
  pub sqrt : Carrier → Carrier
  pub abs : Carrier → Carrier
  pub round : Carrier → Carrier
  pub ceil : Carrier → Carrier
  pub to_ℕ : Carrier → ℕ  -- `as usize`
  pub of_ℕ : ℕ → Carrier  -- `as f64`

-- IEEE 754: `<` is a strict order, on NaN too, where it never holds.
pub record StrictOrder (fl : F64) : Type 0 where
  pub lt_irrefl : (a : fl.Carrier) → fl.lt a a ≡ false
  pub lt_trans : (a b c : fl.Carrier) → fl.lt a b ≡ true → fl.lt b c ≡ true → fl.lt a c ≡ true
