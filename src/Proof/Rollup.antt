-- ===== src/Proof/Rollup.antt =====
-- How the verdict and the score of a report follow from its faults.
use native.Mathlib.Nat.{mod-eq_of_lt}
use navin_engine.Prelude.{
  ℕ, suc, ◌*◌, ◌/◌, ◌^◌, ◌≤◌, ◌<◌, ◌≡◌, refl, ◌↔◌, ◌≢◌, List, [], ◌∷◌, String, arith, length, All,
}
use navin_engine.Proof.{
  Verdict, pass, worst, score, FaultOutcome, worst_fault, sum_scores, mean_score, u8, u32, build,
}

-- A fault that passed.
abbrev pub Passed : {F : Type 0} → FaultOutcome F → Type 0
Passed f = f.verdict ≡ pass

worst-eq-pass : (a b : Verdict) → worst a b ≡ pass → (a ≡ pass) × (b ≡ pass)
unfolding worst
worst-eq-pass a b h = ground arith

worst_fault-eq-pass :
    {F : Type 0} (acc : Verdict) (fs : List (FaultOutcome F))
    → worst_fault acc fs ≡ pass
    → (acc ≡ pass) × All Passed fs
unfolding worst_fault
worst_fault-eq-pass acc [] h = (h, tt)
worst_fault-eq-pass acc (f ∷ fs) h =
    let (both, rest) = worst_fault-eq-pass (worst acc f.verdict) fs h in
    let (a, b) = worst-eq-pass acc f.verdict both in (a, (b, rest))

worst_fault_of_All :
    {F : Type 0} (fs : List (FaultOutcome F)) → All Passed fs → worst_fault pass fs ≡ pass
unfolding worst_fault worst
worst_fault_of_All [] h = refl
worst_fault_of_All (f ∷ fs) h = rw h.0 (worst_fault_of_All fs h.1)

sum_scores_le : {F : Type 0} (fs : List (FaultOutcome F)) → sum_scores fs ≤ 100 * length fs
unfolding sum_scores score
sum_scores_le [] = omega arith
sum_scores_le (f ∷ fs) = ground (arith, sum_scores_le fs)

sum_scores-Passed :
    {F : Type 0} (fs : List (FaultOutcome F)) → All Passed fs → sum_scores fs ≡ 100 * length fs
unfolding sum_scores score
sum_scores-Passed [] h = omega arith
sum_scores-Passed (f ∷ fs) h = ground (arith, sum_scores-Passed fs h.1)

Passed-of_sum :
    {F : Type 0} (fs : List (FaultOutcome F)) → sum_scores fs ≡ 100 * length fs → All Passed fs
unfolding sum_scores score
Passed-of_sum [] h = tt
Passed-of_sum (f ∷ fs) h =
    (ground (arith, sum_scores_le fs), Passed-of_sum fs (ground (arith, sum_scores_le fs)))

mean_full : (s n : ℕ) → 0 < n → s ≤ 100 * n → (s / n ≤ 100) × (s / n ≡ 100 ↔ s ≡ 100 * n)
mean_full s n pos le = (grind arith, (λ h. grind arith, λ h. grind arith))

-- Scores of at most 100 each: in the widths of the source nothing wraps.
mean_bounds : (s n : ℕ) → 0 < n → s ≤ 100 * n → 100 * n < 2 ^ 32 → u8 (u32 s / u32 n) ≡ s / n
mean_bounds s n pos le small =
    let es : u32 s ≡ s = mod-eq_of_lt (omega arith) in
    let en : u32 n ≡ n = mod-eq_of_lt (omega arith) in
    rw (es, en) (mod-eq_of_lt (omega (arith, (mean_full s n pos le).0)))

module _ {F : Type 0} (f : FaultOutcome F) (fs : List (FaultOutcome F)) where
  mean_score_lem :
      100 * length (f ∷ fs) < 2 ^ 32 → mean_score (f ∷ fs) ≡ sum_scores (f ∷ fs) / length (f ∷ fs)
  unfolding mean_score
  mean_score_lem small =
      mean_bounds (sum_scores (f ∷ fs)) (suc (length fs)) (omega arith) (sum_scores_le (f ∷ fs))
        small

  mean_score_iff :
      100 * length (f ∷ fs) < 2 ^ 32
      → (mean_score (f ∷ fs) ≤ 100) × (mean_score (f ∷ fs) ≡ 100 ↔ worst_fault pass (f ∷ fs) ≡ pass)
  mean_score_iff small =
      let (bound, full) =
        mean_full (sum_scores (f ∷ fs)) (suc (length fs)) (omega arith) (sum_scores_le (f ∷ fs)) in
      rw (mean_score_lem small) (
        bound,
        (
          λ h. worst_fault_of_All (f ∷ fs) (Passed-of_sum (f ∷ fs) (full.0 h)),
          λ h. full.1 (sum_scores-Passed (f ∷ fs) (worst_fault-eq-pass pass (f ∷ fs) h).1),
        ),
      )

-- The score of a report is at most 100, and it is 100 exactly when there was a fault and the
-- verdict of the report is Pass, if there are fewer than 42,949,672 faults.
pub build_score_iff :
    {F : Type 0} (now commit profile dir : String) (faults : List (FaultOutcome F))
    (notes : List String)
    → length faults < 42949672
    → ((build now commit profile dir faults notes).robustness_score ≤ 100)
      × ((build now commit profile dir faults notes).robustness_score ≡ 100
          ↔ ((faults ≢ []) × ((build now commit profile dir faults notes).verdict ≡ pass)))
unfolding build
build_score_iff now commit profile dir [] notes h =
    (omega arith, (λ e. absurd (omega arith), λ e. absurd (e.0 refl)))
build_score_iff now commit profile dir (f ∷ fs) notes h =
    let (bound, full) = mean_score_iff f fs (omega arith) in
    (bound, (λ e. (λ p. cc, full.0 e), λ e. full.1 e.1))

-- The verdict of a report is Pass exactly when each of its faults passed.
pub build_passes_iff :
    {F : Type 0} (now commit profile dir : String) (faults : List (FaultOutcome F))
    (notes : List String)
    → ((build now commit profile dir faults notes).verdict ≡ pass) ↔ All Passed faults
unfolding build
build_passes_iff now commit profile dir faults notes =
    (λ h. (worst_fault-eq-pass pass faults h).1, λ h. worst_fault_of_All faults h)
