-- ===== src/Promote/Policy/Laws.antt =====
-- When the policy gate lets a promotion through.
use navin_engine.Prelude.{
  String, ◌≡◌, ◌⊎◌, ◌↔◌, Bool, true, false, arith, eq_iff, inl, inr, not, ◌&&◌,
}
use navin_engine.Policy.{AllowedFamilies, EvolveConfig}
use navin_engine.Promote.Policy.{PolicyDecision, blocked, merge, family_allowed, decide}

abbrev pub is_merge : PolicyDecision → Bool
is_merge (merge reason) = true
is_merge _ = false

abbrev pub is_blocked : PolicyDecision → Bool
is_blocked (blocked reason) = true
is_blocked _ = false

-- The family is one of the seven that the policy names, and that one is switched on.
abbrev pub Allows : AllowedFamilies → String → Type 0
Allows allowed family =
    (family ≡ "performance") × (allowed.performance ≡ true)
    ⊎ (family ≡ "memory") × (allowed.memory ≡ true)
    ⊎ (family ≡ "database") × (allowed.database ≡ true)
    ⊎ (family ≡ "reliability") × (allowed.reliability ≡ true)
    ⊎ (family ≡ "concurrency") × (allowed.concurrency ≡ true)
    ⊎ (family ≡ "security") × (allowed.security ≡ true)
    ⊎ (family ≡ "dependencies") × (allowed.dependencies ≡ true)

-- What lets a promotion touch the repository at all.
pub record MayPromote (config : EvolveConfig) (family : String) (valid : Bool) : Type 0 where
  pub enabled : config.evolve.enabled ≡ true
  pub allowed : Allows config.evolve.allowed family
  pub certified : valid ≡ true

-- What lets it merge without a review.
pub record MayMerge (config : EvolveConfig) : Type 0 where
  pub mode :
      (config.evolve.mode ≡ "autonomous")
      ⊎ (config.evolve.mode ≡ "trusted") × (config.evolve.promotion.auto_merge ≡ true)

Allows-of_allowed :
    (allowed : AllowedFamilies) (family : String)
    → family_allowed allowed family ≡ true
    → Allows allowed family
unfolding family_allowed
Allows-of_allowed allowed family h = ground (
  arith,
  eq_iff family "performance",
  eq_iff family "memory",
  eq_iff family "database",
  eq_iff family "reliability",
  eq_iff family "concurrency",
  eq_iff family "security",
  eq_iff family "dependencies",
)

allowed-of_Allows :
    (allowed : AllowedFamilies) (family : String)
    → Allows allowed family
    → family_allowed allowed family ≡ true
unfolding family_allowed
allowed-of_Allows allowed family (inl (e, a)) = rw e a
allowed-of_Allows allowed family (inr (inl (e, a))) = rw e a
allowed-of_Allows allowed family (inr (inr (inl (e, a)))) = rw e a
allowed-of_Allows allowed family (inr (inr (inr (inl (e, a))))) = rw e a
allowed-of_Allows allowed family (inr (inr (inr (inr (inl (e, a)))))) = rw e a
allowed-of_Allows allowed family (inr (inr (inr (inr (inr (inl (e, a))))))) = rw e a
allowed-of_Allows allowed family (inr (inr (inr (inr (inr (inr (e, a))))))) = rw e a

module _ (config : EvolveConfig) (family : String) (valid : Bool) where
  passes :
      is_blocked (decide config family valid)
      ≡ not (config.evolve.enabled && family_allowed config.evolve.allowed family && valid)
  unfolding decide
  passes = ground arith

  promotes_iff : (is_blocked (decide config family valid) ≡ false) ↔ MayPromote config family valid
  promotes_iff = (
    λ h.
        let e : (config.evolve.enabled ≡ true)
            × (family_allowed config.evolve.allowed family ≡ true)
            × (valid ≡ true) =
          ground (arith, passes) in
        record {
          enabled = e.0;
          allowed = Allows-of_allowed config.evolve.allowed family e.1;
          certified = e.2;
        },
    λ h. ground (
      arith,
      passes,
      h.enabled,
      h.certified,
      allowed-of_Allows config.evolve.allowed family h.allowed,
    ),
  )

  merges_iff :
      (is_merge (decide config family valid) ≡ true)
      ↔ ((is_blocked (decide config family valid) ≡ false) × MayMerge config)
  unfolding decide
  merges_iff = (
    λ h. (
      ground arith,
      record {
        mode =
            ground
              (arith, eq_iff config.evolve.mode "autonomous", eq_iff config.evolve.mode "trusted");
      },
    ),
    λ h. ground (
      arith,
      h.1.mode,
      eq_iff config.evolve.mode "autonomous",
      eq_iff config.evolve.mode "trusted",
    ),
  )

  -- The gate lets a promotion through exactly when the policy is on, the family is one that it
  -- names and allows, and the certificate is valid; and it asks for a merge exactly when, besides,
  -- the mode is autonomous, or trusted with auto_merge. So the safe mode and any mode that the
  -- gate does not know never merge.
  pub decide_iff :
      ((is_blocked (decide config family valid) ≡ false) ↔ MayPromote config family valid)
      × ((is_merge (decide config family valid) ≡ true)
          ↔ (MayPromote config family valid × MayMerge config))
  decide_iff = (
    promotes_iff,
    (
      λ h. let (p, m) = merges_iff.0 h in (promotes_iff.0 p, m),
      λ h. merges_iff.1 (promotes_iff.1 h.0, h.1),
    ),
  )
