-- ===== src/Promote/Policy.antt =====
-- src/promote/policy.rs: the promotion policy gate.
pub mod Laws
use navin_engine.Prelude.{String, Bool, true, false, [], ◌∷◌, str_eq, if◌then◌else◌}
use navin_engine.Prelude.Text.{concat}
use navin_engine.Policy.{AllowedFamilies, EvolveConfig}

pub data PolicyDecision : Type 0 where
  blocked branch_only merge : String → PolicyDecision

family_allowed : AllowedFamilies → String → Bool
family_allowed allowed family =
    if str_eq family "performance"
    then allowed.performance
    else if str_eq family "memory"
    then allowed.memory
    else if str_eq family "database"
    then allowed.database
    else if str_eq family "reliability"
    then allowed.reliability
    else if str_eq family "concurrency"
    then allowed.concurrency
    else if str_eq family "security"
    then allowed.security
    else if str_eq family "dependencies"
    then allowed.dependencies
    else false

abbrev by_mode : String → Bool → PolicyDecision
by_mode mode auto_merge =
    if str_eq mode "autonomous"
    then merge "autonomous mode: merging automatically"
    else if str_eq mode "trusted"
    then (if auto_merge
        then merge "trusted mode with auto_merge enabled"
        else branch_only "trusted mode without auto_merge: branch left for review")
    else branch_only "safe mode: branch created for manual review, not merged"

unfoldable pub decide : EvolveConfig → String → Bool → PolicyDecision
unfolding family_allowed
decide config family certificate_valid =
    if config.evolve.enabled
    then (if family_allowed config.evolve.allowed family
        then (if certificate_valid
            then by_mode config.evolve.mode config.evolve.promotion.auto_merge
            else blocked "the fix certificate is not valid (proof did not pass or did not improve)")
        else blocked
            (concat ("family `" ∷ family ∷ "` is not allowed by policy ([evolve.allowed])" ∷ [])))
    else blocked "evolve is disabled in policy ([evolve] enabled = false)"
