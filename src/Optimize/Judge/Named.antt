-- ===== src/Optimize/Judge/Named.antt =====
-- src/optimize/engine.rs: an outcome is that of the candidate which was measured.
use navin_engine.Prelude.{
  ℕ, zero, suc, ap, length, String, ◌≡◌, refl, true, Option, none, some, List, [], ◌∷◌, get_elem?,
  Result, ok, err, Bool-cases, inl, inr,
}
use navin_engine.Prelude.Reals.{F64}
use navin_engine.System.{System}
use navin_engine.Fix.Model.{FixCandidate}
use navin_engine.Optimize.Judge.{
  MeasureVariantArgs, is_broken, error_ratio_regressed, measured_variant, judge_errors,
  judge_behavior, judge, judged,
}
use navin_engine.Optimize.Measure.{Measurement}
use navin_engine.Optimize.Model.{LatencyStats, VariantOutcome, aggregate}
use navin_engine.Runner.{Wire}
use navin_engine.Verify.Differential.{Fingerprint, compare}

-- One outcome for each candidate, in their order.
abbrev pub Aligned : {F : Type 0} → List FixCandidate → List (VariantOutcome F) → Type 0
Aligned [] [] = Unit
Aligned [] (v ∷ vs) = ⊥
Aligned (c ∷ cs) [] = ⊥
Aligned (c ∷ cs) (v ∷ vs) = (v.candidate_id ≡ c.id) × Aligned cs vs

pub Aligned-get_elem? :
    {F : Type 0} (cs : List FixCandidate) (vs : List (VariantOutcome F)) (i : ℕ) (c : FixCandidate)
    (v : VariantOutcome F)
    → Aligned cs vs
    → get_elem? cs i ≡ some c
    → get_elem? vs i ≡ some v
    → v.candidate_id ≡ c.id
Aligned-get_elem? [] vs i c v a hc hv = cc
Aligned-get_elem? (c' ∷ cs) [] i c v a hc hv = absurd a
Aligned-get_elem? (c' ∷ cs) (v' ∷ vs) zero c v a hc hv = let e = a.0 in cc
Aligned-get_elem? (c' ∷ cs) (v' ∷ vs) (suc i) c v a hc hv = Aligned-get_elem? cs vs i c v a.1 hc hv

pub Aligned-length :
    {F : Type 0} (cs : List FixCandidate) (vs : List (VariantOutcome F))
    → Aligned cs vs
    → length vs ≡ length cs
Aligned-length [] [] a = refl
Aligned-length [] (v ∷ vs) a = absurd a
Aligned-length (c ∷ cs) [] a = absurd a
Aligned-length (c ∷ cs) (v ∷ vs) a = ap suc (Aligned-length cs vs a.1)

module _ {W : Type 0} (fl : F64) (sys : System W) (wire : Wire W fl.Carrier)
    (args : MeasureVariantArgs fl.Carrier) where
  abbrev Named : String → VariantOutcome fl.Carrier → Type 0
  Named id v = v.candidate_id ≡ id

  judge_errors-Named :
      (id : String) (m : Measurement fl.Carrier) (stats : LatencyStats fl.Carrier)
      (o : VariantOutcome fl.Carrier)
      → Named id o
      → Named id (judge_errors fl sys wire args m stats o)
  judge_errors-Named id m stats o h =
      elim (Bool-cases (error_ratio_regressed fl sys wire args.baseline stats)) [
        | inl r ↦ rw r h
        | inr r ↦ rw r h
      ]

  judge_behavior-Named :
      (id : String) (m : Measurement fl.Carrier) (stats : LatencyStats fl.Carrier)
      (o : VariantOutcome fl.Carrier) (before after : Option (List Fingerprint))
      → Named id o
      → Named id (judge_behavior fl sys wire args m stats o before after)
  judge_behavior-Named id m stats o none after h = judge_errors-Named id m stats o h
  judge_behavior-Named id m stats o (some before) none h = judge_errors-Named id m stats o h
  judge_behavior-Named id m stats o (some before) (some after) h =
      elim (Bool-cases (compare {F = fl.Carrier} before after).equivalent) [
        | inl r ↦
            rw r (judge_errors-Named id m stats (record o { behavior_equivalent = some true }) h)
        | inr r ↦ rw r h
      ]

  judge-Named :
      (candidate : FixCandidate) (m : Measurement fl.Carrier)
      → Named candidate.id (judge fl sys wire args candidate m)
  unfolding judge
  judge-Named candidate m =
      let o = measured_variant fl sys wire args candidate m (aggregate fl m.runs) in
      elim (Bool-cases (is_broken m.tests_passed args.tests_before)) [
        | inl r ↦ rw r refl
        | inr r ↦ rw r (elim (Bool-cases (is_broken m.invariants_ok args.invariants_before)) [
          | inl i ↦ rw i refl
          | inr i ↦ rw i (
              judge_behavior-Named candidate.id m (aggregate fl m.runs) o args.baseline_prints
                m.fingerprints refl)
        ])
      ]

  pub judged-Named :
      (candidate : FixCandidate) (r : Result String (Measurement fl.Carrier))
      → (judged fl sys wire args candidate r).candidate_id ≡ candidate.id
  unfolding judged
  judged-Named candidate (err e) = refl
  judged-Named candidate (ok m) = judge-Named candidate m
