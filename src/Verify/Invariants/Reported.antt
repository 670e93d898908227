-- ===== src/Verify/Invariants/Reported.antt =====
-- src/verify/invariants.rs: the report of a pass over the invariants is complete.
use navin_engine.Prelude.{
  ℕ, max, ◌≡◌, refl, sym, ◌∙◌, ap, zero, suc, arith, String, true, List, [], ◌∷◌, ◌++◌, length,
  is_empty, if◌then◌else◌, Result, ok, err, pure, ◌>>=◌, ◌↔◌, Bool-cases, inl, inr,
}
use mathlib.Core.List.{append_assoc, append-nil}
use navin_engine.System.{System, command_ok, catch, exits_zero}
use navin_engine.System.Path.{FilePath}
use navin_engine.Policy.{InvariantSpec}
use navin_engine.Verify.Invariants.{
  InvariantOutcome, invariants_log, push_failure, run_each, run_invariants,
}

module _ {W : Type 0} (sys : System W) (work_dir root : FilePath) where
  -- How one command ends, and the machine that it leaves.
  abbrev pub ends : InvariantSpec → W → Result String ℕ × W
  ends spec w =
      sys.run_command spec.command work_dir (invariants_log root) (max spec.timeout_secs 1) w

  -- The names of those that do not exit with 0, each run where the one before it left off.
  abbrev pub red : List InvariantSpec → W → List String
  red [] w = []
  red (spec ∷ specs) w =
      let rest = red specs (ends spec w).1 in
      if exits_zero (ends spec w).0 then rest else spec.name ∷ rest

  abbrev pub left : List InvariantSpec → W → W
  left [] w = w
  left (spec ∷ specs) w = left specs (ends spec w).1

  -- Every command exits with 0.
  abbrev pub AllGreen : List InvariantSpec → W → Type 0
  AllGreen [] w = Unit
  AllGreen (spec ∷ specs) w = ((ends spec w).0 ≡ ok 0) × AllGreen specs (ends spec w).1

  then-red :
      (r : Result String ℕ) (name : String) (failures rest : List String)
      → push_failure (exits_zero r) name failures ++ rest
        ≡ failures ++ (if exits_zero r then rest else name ∷ rest)
  then-red (ok zero) name failures rest = refl
  then-red (ok (suc n)) name failures rest = append_assoc failures (name ∷ []) rest
  then-red (err e) name failures rest = append_assoc failures (name ∷ []) rest

  run_each_lem :
      (specs : List InvariantSpec) (failures : List String) (w : W)
      → run_each sys work_dir root specs failures w ≡ (ok (failures ++ red specs w), left specs w)
  unfolding run_each command_ok ◌>>=◌ catch pure
  run_each_lem [] failures w = ap (λ (l : List String). (ok l, w)) (sym (append-nil failures))
  run_each_lem (spec ∷ specs) failures w =
      run_each_lem specs (push_failure (exits_zero (ends spec w).0) spec.name failures)
        (ends spec w).1
      ∙ ap (λ (l : List String). (ok l, left specs (ends spec w).1))
          (then-red (ends spec w).0 spec.name failures (red specs (ends spec w).1))

  exits_zero-ok : (r : Result String ℕ) → exits_zero r ≡ true → r ≡ ok 0
  exits_zero-ok (ok zero) h = refl
  exits_zero-ok (ok (suc n)) h = cc
  exits_zero-ok (err e) h = cc

  red-AllGreen :
      (specs : List InvariantSpec) (w : W) → (is_empty (red specs w) ≡ true) ↔ AllGreen specs w
  red-AllGreen [] w = (λ h. tt, λ h. refl)
  red-AllGreen (spec ∷ specs) w =
      let (there, back) = red-AllGreen specs (ends spec w).1 in
      elim (Bool-cases (exits_zero (ends spec w).0)) [
        | inl green ↦ (
          λ h. (exits_zero-ok (ends spec w).0 green, there (ground (arith, h, green))),
          λ g. ground (arith, back g.1, green),
        )
        | inr failed ↦
            (λ h. absurd (ground (arith, h, failed)), λ g. absurd (ground (arith, g.0, failed)))
      ]

  -- What a pass over the invariants reports.
  pub record Reported (specs : List InvariantSpec) (w : W) (o : InvariantOutcome) : Type 0 where
    pub counted : o.checked ≡ length specs
    pub named : o.failures ≡ red specs w
    pub sound : (o.passed ≡ true) ↔ AllGreen specs w

  -- The pass over the invariants never fails and never stops early: it counts them all, names
  -- those whose command did not exit with 0, in the order of their declaration, and has passed
  -- exactly if each exited with 0.
  pub run_invariants-Reported :
      (specs : List InvariantSpec) (w : W)
      → (o : InvariantOutcome) × (run_invariants sys work_dir root specs w ≡ (ok o, left specs w))
        × Reported specs w o
  unfolding run_invariants ◌>>=◌ pure
  run_invariants-Reported specs w = (
    record { checked = length specs; passed = is_empty (red specs w); failures = red specs w },
    rw (run_each_lem specs [] w) (refl),
    record { counted = refl; named = refl; sound = red-AllGreen specs w },
  )
