-- ===== src/Diagnose/Ranked.antt =====
-- src/diagnose/model.rs, `Diagnosis::build`: the order of the findings.
use navin_engine.Prelude.{ℕ, ◌≤◌, List, [], ◌∷◌, All}
use navin_engine.Diagnose.{Finding, rank}

abbrev AtMost : ℕ → Finding → Type 0
AtMost n f = n ≤ rank f.severity

-- No finding is worse than one before it.
abbrev pub Ranked : List Finding → Type 0
Ranked [] = Unit
Ranked (f ∷ fs) = All (AtMost (rank f.severity)) fs × Ranked fs
