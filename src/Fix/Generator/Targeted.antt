-- ===== src/Fix/Generator/Targeted.antt =====
-- src/fix/generator.rs: a generator hands back only candidates that are aimed at the finding.
use navin_engine.Prelude.{
  ◌≡◌, List, [], ◌∷◌, All, eq_iff, ok, Returns-pure, Returns-bind, Bool-cases, inl, inr,
}
use navin_engine.System.Path.{FilePath}
use navin_engine.Diagnose.{Finding}
use navin_engine.Fix.Model.{FixCandidate}
use navin_engine.Fix.Generator.{is_aimed, aimed_at, Bridge, BridgeGenerator, propose}

abbrev pub Aimed : Finding → FixCandidate → Type 0
Aimed finding c = c.target_finding ≡ finding.id

aimed_at-Aimed :
    (finding : Finding) (cs : List FixCandidate) → All (Aimed finding) (aimed_at finding cs)
aimed_at-Aimed finding [] = tt
aimed_at-Aimed finding (c ∷ cs) = elim (Bool-cases (is_aimed finding c)) [
  | inl h ↦ rw h ((eq_iff c.target_finding finding.id).0 h, aimed_at-Aimed finding cs)
  | inr h ↦ rw h (aimed_at-Aimed finding cs)
]

-- Whatever the bridge prints, each candidate that comes of it is aimed at the finding that was
-- asked about.
pub propose-Aimed :
    {W : Type 0} (bridge : Bridge W) (g : BridgeGenerator) (root : FilePath) (finding : Finding)
    (w w' : W) (cs : List FixCandidate)
    → propose bridge g root finding w ≡ (ok cs, w')
    → All (Aimed finding) cs
unfolding propose
propose-Aimed bridge g root finding w w' cs =
    (Returns-bind {Q = All (Aimed finding)} _ _ (λ stdout.
        Returns-bind _ _ (λ candidates. Returns-pure _ (aimed_at-Aimed finding candidates)))).at
      w w' cs
