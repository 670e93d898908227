-- ===== src/Verify/Differential/Equivalent.antt =====
-- src/verify/differential.rs: what a comparison without divergence means.
use navin_engine.Prelude.{
  ◌≡◌, refl, ◌↔◌, arith, Bool, true, false, ◌&&◌, List, [], ◌∷◌, ◌++◌, ◌==◌, str_eq, eq_iff,
  is_empty, length, Message,
}
use navin_engine.Verify.Differential.{Fingerprint, diverge, diverge_all, count_mismatch, compare}

-- The two lists are as long as each other, and answer for answer they agree in status and digest.
abbrev pub Agree : List Fingerprint → List Fingerprint → Type 0
Agree [] [] = Unit
Agree [] (c ∷ cs) = ⊥
Agree (b ∷ bs) [] = ⊥
Agree (b ∷ bs) (c ∷ cs) = (b.status ≡ c.status) × (b.body_hash ≡ c.body_hash) × Agree bs cs

abbrev same : Fingerprint → Fingerprint → Bool
same b c = (b.status == c.status) && str_eq b.body_hash c.body_hash

-- The answers agree as far as both lists go.
abbrev all_same : List Fingerprint → List Fingerprint → Bool
all_same [] _ = true
all_same (b ∷ bs) [] = true
all_same (b ∷ bs) (c ∷ cs) = same b c && all_same bs cs

Agree-all_same :
    (bs cs : List Fingerprint) → Agree bs cs ↔ ((all_same bs cs && (length cs == length bs)) ≡ true)
Agree-all_same [] [] = (λ h. ground arith, λ h. tt)
Agree-all_same [] (c ∷ cs) = (λ h. absurd h, λ h. absurd (ground arith))
Agree-all_same (b ∷ bs) [] = (λ h. absurd h, λ h. absurd (ground arith))
Agree-all_same (b ∷ bs) (c ∷ cs) =
    let ih = Agree-all_same bs cs in
    let digest = eq_iff b.body_hash c.body_hash in
    (
      λ h. let rest = ih.0 h.2 in ground (arith, h.0, h.1, rest, digest),
      λ h. (ground arith, ground (arith, digest), ih.1 (ground arith)),
    )

module _ {F : Type 0} where
  is_empty-snoc : (xs : List (Message F)) (x : Message F) → is_empty (xs ++ x ∷ []) ≡ false
  is_empty-snoc [] x = refl
  is_empty-snoc (y ∷ xs) x = refl

  is_empty-diverge :
      (b c : Fingerprint) (found : List (Message F))
      → is_empty (diverge b c found) ≡ (is_empty found && same b c)
  is_empty-diverge b c found = ground (arith, is_empty-snoc found)

  is_empty-diverge_all :
      (found : List (Message F)) (bs cs : List Fingerprint)
      → is_empty (diverge_all found bs cs) ≡ (is_empty found && all_same bs cs)
  unfolding diverge_all
  is_empty-diverge_all found [] cs = ground arith
  is_empty-diverge_all found (b ∷ bs) [] = ground arith
  is_empty-diverge_all found (b ∷ bs) (c ∷ cs) =
      let ih = is_empty-diverge_all (diverge b c found) bs cs in
      let now = is_empty-diverge b c found in ground arith

  is_empty-count_mismatch :
      (bs cs : List Fingerprint) (found : List (Message F))
      → is_empty (count_mismatch bs cs found) ≡ (is_empty found && (length cs == length bs))
  is_empty-count_mismatch bs cs found = ground (arith, is_empty-snoc found)

-- The comparison says that a candidate is equivalent exactly when it answered as many vectors as
-- the baseline, and each with the same status and the same body digest. Paths and lengths of
-- bodies play no part.
pub compare-equivalent_iff :
    (F : Type 0) (baseline candidate : List Fingerprint)
    → ((compare {F = F} baseline candidate).equivalent ≡ true) ↔ Agree baseline candidate
unfolding compare
compare-equivalent_iff F baseline candidate =
    let empty =
      is_empty-count_mismatch {F = F} baseline candidate (diverge_all [] baseline candidate) in
    let loop = is_empty-diverge_all {F = F} [] baseline candidate in
    let agree = Agree-all_same baseline candidate in
    (
      λ h. agree.1 (ground (arith, empty, loop)),
      λ h. let a = agree.0 h in ground (arith, empty, loop, a),
    )
