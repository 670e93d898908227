-- ===== src/Optimize/Model.antt =====
-- src/optimize/model.rs and src/optimize/stats.rs, with `LatencyStats` of src/baseline/latency.rs:
-- the objective, the measured outcome of a variant, and the choice of the winner.
pub mod Winner
use navin_engine.Prelude.{
  ℕ, suc, ◌+◌, ◌-◌, ◌*◌, ◌%◌, ◌^◌, String, Bool, true, false, ◌&&◌, not, ◌||◌, Option, none, some,
  List, [], ◌∷◌, map, ◌==◌, ltb, if◌then◌else◌, Result, ok, err, length, str_eq,
}
use navin_engine.Prelude.Text.{concat}
use navin_engine.Prelude.Reals.{F64}

pub data Objective : Type 0 where
  p95 throughput : Objective

unfoldable pub parse : String → Result String Objective
parse text =
    if str_eq text "p95"
    then ok p95
    else if str_eq text "throughput" || str_eq text "rps"
    then ok throughput
    else err (concat ("unknown objective `" ∷ text ∷ "` (use p95 or throughput)" ∷ []))

abbrev pub slug : Objective → String
slug p95 = "p95"
slug throughput = "throughput"

pub record LatencyStats (F : Type 0) : Type 0 where
  pub requests : ℕ
  pub failures : ℕ
  pub p50_ms : F
  pub p95_ms : F
  pub p99_ms : F
  pub rps : F

-- Mean and sample standard deviation of one measured metric.
pub record Sample (F : Type 0) : Type 0 where
  pub mean : F
  pub std_dev : F
  pub n : ℕ

pub record VariantOutcome (F : Type 0) : Type 0 where
  pub candidate_id : String
  pub rationale : String
  pub stats : Option (LatencyStats F)
  pub p95_std_ms : Option F
  pub rps_std : Option F
  pub tests_passed : Option Bool
  pub invariants_ok : Option Bool
  pub gain : Option F
  pub significance : Option Bool
  pub behavior_equivalent : Option Bool
  pub eligible : Bool
  pub note : String
  pub diff : Option String

module _ (fl : F64) where
  open fl use {Carrier, lt, le, add, sub, mul, div, sqrt, abs, of_ℕ}

  -- `(new - old) / base * 100`, and no gain over a base that is not positive
  abbrev gain_over : Carrier → Carrier → Carrier
  gain_over base change = if le base (of_ℕ 0) then of_ℕ 0 else mul (div change base) (of_ℕ 100)

  unfoldable pub gain_percent : Objective → LatencyStats Carrier → LatencyStats Carrier → Carrier
  gain_percent p95 base cand = gain_over base.p95_ms (sub base.p95_ms cand.p95_ms)
  gain_percent throughput base cand = gain_over base.rps (sub cand.rps base.rps)

  unfoldable pub error_ratio : LatencyStats Carrier → Carrier
  error_ratio stats =
      let total = (stats.requests + stats.failures) % 2 ^ 64 in
      if total == 0 then of_ℕ 1 else div (of_ℕ stats.failures) (of_ℕ total)

  -- The values added from the left, as an iterator's `sum` does.
  abbrev sum_from : Carrier → List Carrier → Carrier
  sum_from total [] = total
  sum_from total (x ∷ xs) = sum_from (add total x) xs

  abbrev square_from : Carrier → Carrier → Carrier
  square_from mean v = mul (sub v mean) (sub v mean)

  unfoldable pub sample : List Carrier → Sample Carrier
  sample values =
      let n = length values in
      let mean = div (sum_from (of_ℕ 0) values) (of_ℕ n) in
      if n == 0
      then record { mean = of_ℕ 0; std_dev = of_ℕ 0; n = 0 }
      else if ltb n 2
      then record { mean = mean; std_dev = of_ℕ 0; n = n }
      else record {
        mean = mean;
        std_dev = sqrt (div (sum_from (of_ℕ 0) (map (square_from mean) values)) (of_ℕ (n - 1)));
        n = n;
      }

  abbrev noise : Sample Carrier → Carrier
  noise s = div (mul s.std_dev s.std_dev) (of_ℕ s.n)

  unfoldable pub significant : Sample Carrier → Sample Carrier → Bool
  significant a b =
      if ltb a.n 2 || ltb b.n 2
      then true
      else lt (mul (of_ℕ 2) (sqrt (add (noise a) (noise b)))) (abs (sub a.mean b.mean))

  abbrev count_from : ℕ → List ℕ → ℕ
  count_from total [] = total
  count_from total (x ∷ xs) = count_from ((total + x) % 2 ^ 64) xs

  abbrev average : List Carrier → Carrier
  average values = div (sum_from (of_ℕ 0) values) (of_ℕ (length values))

  unfoldable pub aggregate : List (LatencyStats Carrier) → LatencyStats Carrier
  aggregate [] = record {
    requests = 0;
    failures = 0;
    p50_ms = of_ℕ 0;
    p95_ms = of_ℕ 0;
    p99_ms = of_ℕ 0;
    rps = of_ℕ 0;
  }
  aggregate (r ∷ rs) =
      let runs = r ∷ rs in
      record {
        requests = count_from 0 (map (λ (x : LatencyStats Carrier). x.requests) runs);
        failures = count_from 0 (map (λ (x : LatencyStats Carrier). x.failures) runs);
        p50_ms = average (map (λ (x : LatencyStats Carrier). x.p50_ms) runs);
        p95_ms = average (map (λ (x : LatencyStats Carrier). x.p95_ms) runs);
        p99_ms = average (map (λ (x : LatencyStats Carrier). x.p99_ms) runs);
        rps = average (map (λ (x : LatencyStats Carrier). x.rps) runs);
      }

  abbrev pub is_noise : Option Bool → Bool
  is_noise (some false) = true
  is_noise _ = false

  -- `best.map(|(_, b)| gain > b).unwrap_or(true)`
  abbrev pub beats : Carrier → Option (ℕ × Carrier) → Bool
  beats g none = true
  beats g (some (i, b)) = lt b g

  -- What is left of the loop's body when the variant has the gain `gain`.
  abbrev pub with_gain :
      Carrier
      → ℕ
      → VariantOutcome Carrier
      → Option Carrier
      → Option (ℕ × Carrier)
      → Option (ℕ × Carrier)
  with_gain min_gain index v none best = best
  with_gain min_gain index v (some g) best =
      if lt g min_gain
      then best
      else if is_noise v.significance
      then best
      else if beats g best
      then some (index, g)
      else best

  abbrev pub consider :
      Carrier → ℕ → VariantOutcome Carrier → Option (ℕ × Carrier) → Option (ℕ × Carrier)
  consider min_gain index v best =
      if not v.eligible then best else with_gain min_gain index v v.gain best

  abbrev pub select_from :
      Carrier → ℕ → Option (ℕ × Carrier) → List (VariantOutcome Carrier) → Option (ℕ × Carrier)
  select_from min_gain index best [] = best
  select_from min_gain index best (v ∷ vs) =
      select_from min_gain (suc index) (consider min_gain index v best) vs

  abbrev pub index_of : Option (ℕ × Carrier) → Option ℕ
  index_of none = none
  index_of (some (i, g)) = some i

  unfoldable pub select_winner : List (VariantOutcome Carrier) → Carrier → Option ℕ
  select_winner variants min_gain = index_of (select_from min_gain 0 none variants)
