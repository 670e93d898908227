-- ===== src/Baseline/Probes.antt =====
-- src/baseline/latency.rs: every probed path is probed once, and a percentile is a sample.
use mathlib.Core.Path.{subst}
use navin_engine.Prelude.{
  ℕ, zero, suc, ◌<◌, ◌≡◌, ◌≢◌, refl, sym, ap, arith, String, Bool, true, false, some, List, [], ◌∷◌,
  ◌++◌, map, contains, length, get_elem?, Distinct, Distinct-snoc, if◌then◌else◌,
}
use navin_engine.Prelude.Text.{is_blank, trim}
use navin_engine.Prelude.Reals.{F64}
use navin_engine.Policy.{TargetSection}
use navin_engine.Baseline.{
  ProbeSpec, normalize, push_new, add_path, add_paths, first_path, spec_of, specs_for, sample_or,
  index_for, percentile,
}

push-Distinct :
    (b : Bool) (paths : List String) (path : String)
    → contains path paths ≡ b
    → Distinct paths
    → Distinct (if b then paths else paths ++ path ∷ [])
push-Distinct true paths path e d = d
push-Distinct false paths path e d = Distinct-snoc paths path e d

add-Distinct :
    (b : Bool) (paths : List String) (path : String)
    → Distinct paths
    → Distinct (if b then paths else push_new paths path)
add-Distinct true paths path d = d
add-Distinct false paths path d = push-Distinct (contains path paths) paths path refl d

add_paths-Distinct :
    (paths extras : List String) → Distinct paths → Distinct (add_paths paths extras)
unfolding add_paths
add_paths-Distinct paths [] d = d
add_paths-Distinct paths (e ∷ es) d =
    add_paths-Distinct (add_path paths (trim e)) es
      (add-Distinct (is_blank (trim e)) paths (normalize (trim e)) d)

path-spec_of :
    (target : TargetSection) (paths : List String)
    → map (λ (s : ProbeSpec). s.path) (map (spec_of target) paths) ≡ paths
path-spec_of target [] = refl
path-spec_of target (p ∷ ps) = ap (λ qs. p ∷ qs) (path-spec_of target ps)

-- Whatever paths the target lists, no path is probed twice.
pub specs_for-Distinct :
    (target : TargetSection) (base_path : String)
    → Distinct (map (λ (s : ProbeSpec). s.path) (specs_for target base_path))
unfolding specs_for
specs_for-Distinct target base_path =
    let paths = add_paths (first_path base_path ∷ []) target.probe_paths in
    subst Distinct (sym (path-spec_of target paths))
      (add_paths-Distinct (first_path base_path ∷ []) target.probe_paths (refl, tt))

module _ (fl : F64) where
  open fl use {Carrier, of_ℕ}

  sample_at :
      (xs : List Carrier) (i : ℕ)
      → i < length xs
      → get_elem? xs i ≡ some (sample_or fl (of_ℕ 0) (get_elem? xs i))
  sample_at [] i h = absurd (ground arith)
  sample_at (x ∷ xs) zero h = refl
  sample_at (x ∷ xs) (suc i) h = sample_at xs i (omega (arith, h))

  -- A percentile of samples that are there is one of them, for every quantile: its rank never
  -- leaves the list, whatever the multiplication and the rounding return.
  pub percentile-sample :
      (sorted : List Carrier) (q : Carrier)
      → sorted ≢ []
      → (i : ℕ) × (get_elem? sorted i ≡ some (percentile fl sorted q))
  unfolding percentile
  percentile-sample [] q h = absurd (h refl)
  percentile-sample (x ∷ xs) q h =
      let i = index_for fl q (length (x ∷ xs)) in (i, sample_at (x ∷ xs) i (omega arith))
