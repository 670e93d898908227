-- ===== src/Proof/Checks.antt =====
-- src/proof/checks.rs: the invariant checks that every fault shares. `fl` is the type of floats.
use navin_engine.Prelude.{ℕ, ◌*◌, ◌%◌, ◌^◌, Bool, [], ◌∷◌, leb, if◌then◌else◌, ◌==◌, fmt, num, real}
use navin_engine.Prelude.Reals.{F64}
use navin_engine.Proof.{pass, weak, fail, CheckResult, new_check, with_metric}

module _ (fl : F64) where
  open fl use {Carrier, le, mul, div, of_ℕ}

  unfoldable pub no_crash : Bool → CheckResult Carrier
  unfolding new_check
  no_crash alive_after =
      if alive_after
      then new_check "no_crash" pass (fmt "service still serving after the fault" [])
      else new_check "no_crash" fail (fmt "service was not serving after the fault" [])

  -- `bound_secs * 0.8`
  unfoldable pub recovery : Bool → Carrier → Carrier → CheckResult Carrier
  unfolding new_check with_metric
  recovery recovered secs bound_secs =
      let soft = mul bound_secs (div (of_ℕ 8) (of_ℕ 10)) in
      if recovered
      then with_metric
          (new_check "recovery" (if le secs soft then pass else weak)
            (fmt "recovered in {secs:.2}s" (real secs ∷ [])))
          secs bound_secs
      else with_metric
          (new_check "recovery" fail
            (fmt "did not recover within {bound_secs:.0}s" (real bound_secs ∷ [])))
          secs bound_secs

  abbrev failure_ratio : ℕ → ℕ → Carrier
  failure_ratio failures total = if total == 0 then of_ℕ 1 else div (of_ℕ failures) (of_ℕ total)

  unfoldable pub error_rate : ℕ → ℕ → Carrier → CheckResult Carrier
  unfolding new_check with_metric
  error_rate failures total max_ratio =
      let ratio = failure_ratio failures total in
      let verdict =
        if le ratio max_ratio
        then pass
        else if le ratio (mul max_ratio (of_ℕ 5))
        then weak
        else fail in
      with_metric
        (new_check "error_rate" verdict (
          fmt "{failures}/{total} failed ({:.2}%)"
            (num failures ∷ num total ∷ real (mul ratio (of_ℕ 100)) ∷ [])))
        ratio max_ratio

  unfoldable pub resource_bound : ℕ → ℕ → CheckResult Carrier
  unfolding new_check with_metric
  resource_bound rss_mb limit_mb =
      let verdict =
        if leb rss_mb limit_mb
        then pass
        else if leb rss_mb (limit_mb * 2 % 2 ^ 64)
        then weak
        else fail in
      if limit_mb == 0
      then new_check "resource_bound" pass (fmt "no memory ceiling configured" [])
      else with_metric
          (new_check "resource_bound" verdict
            (fmt "peak RSS {rss_mb} MB (ceiling {limit_mb} MB)" (num rss_mb ∷ num limit_mb ∷ [])))
          (of_ℕ rss_mb) (of_ℕ limit_mb)
