-- ===== src/Fix/Engine/Sifted.antt =====
-- src/fix/engine.rs: what the report of a fix campaign says of its attempts.
use navin_engine.Prelude.{
  ℕ, suc, ◌≡◌, refl, ◌∙◌, arith, String, Bool, true, false, Option, none, some, List, [], ◌∷◌, ◌++◌,
  find, All, All-append, Result, ok, err, Returns, Returns-pure, Returns-bind, Returns-bind-of,
  Bool-cases, inl, inr,
}
use navin_engine.Prelude.Reals.{F64}
use navin_engine.System.{System, catch}
use navin_engine.System.Path.{FilePath}
use navin_engine.Fix.Model.{FixCandidate, accepted, FixAttempt, FixReport}
use navin_engine.Fix.Gate.{GateConfig}
use navin_engine.Fix.Gate.Laws.{Helped, evaluate-accepts_iff}
use navin_engine.Fix.Engine.{
  Evidence, FixGenerator, Campaign, attempt_of, evaluate_candidate, keep, evaluate_all, persist,
  write_proposal, run_fix,
}

abbrev pub is_accepted : {F : Type 0} → FixAttempt F → Bool
is_accepted a = accepted a.gate

abbrev pub candidate_of : {F : Type 0} → Option (FixAttempt F) → Option String
candidate_of none = none
candidate_of (some a) = some a.candidate_id

module _ {W : Type 0} (sys : System W) (fl : F64) (campaign : Campaign W fl.Carrier)
    (cfg : GateConfig fl.Carrier) where
  -- An accepted attempt was applied and proved, and it helped; it is compared with the score that
  -- the report gives for the code done it was.
  pub record Judged (score : ℕ) (a : FixAttempt fl.Carrier) : Type 0 where
    pub helped : is_accepted a ≡ true → Helped fl a.comparison cfg
    pub applied : is_accepted a ≡ true → a.apply_error ≡ none
    pub base : a.comparison.score_before ≡ score

  pub record Sifted (r : FixReport fl.Carrier) : Type 0 where
    pub first : r.accepted ≡ candidate_of (find is_accepted r.attempts)
    pub judged : All (Judged r.score_before) r.attempts

  module _ (before : Evidence fl.Carrier) (target_finding : String) where
    attempt_of-Judged :
        (c : FixCandidate) (r : Result String (Evidence fl.Carrier))
        → Judged before.report.robustness_score
            (attempt_of sys fl campaign cfg before target_finding c r)
    unfolding attempt_of accepted
    attempt_of-Judged c (ok after) = record {
      helped = λ h. (evaluate-accepts_iff fl _ cfg).0 (ground arith);
      applied = λ h. refl;
      base = refl;
    }
    attempt_of-Judged c (err e) = record {
      helped = λ h. absurd (ground arith);
      applied = λ h. absurd (ground arith);
      base = refl;
    }

    abbrev id_of : Option FixCandidate → Option String
    id_of none = none
    id_of (some c) = some c.id

    keep-some :
        (b : Bool) (c : FixCandidate) (first : Option FixCandidate) (s : String)
        → id_of first ≡ some s
        → id_of (keep sys fl campaign b c first) ≡ some s
    keep-some true c none s h = cc
    keep-some true c (some f) s h = h
    keep-some false c first s h = h

    find-snoc :
        (done : List (FixAttempt fl.Carrier)) (a : FixAttempt fl.Carrier) (c : FixCandidate)
        (first : Option FixCandidate)
        → a.candidate_id ≡ c.id
        → id_of first ≡ candidate_of (find is_accepted done)
        → id_of (keep sys fl campaign (is_accepted a) c first)
          ≡ candidate_of (find is_accepted (done ++ a ∷ []))
    find-snoc [] a c none e h = ground (arith, e)
    find-snoc [] a c (some f) e h = cc
    find-snoc (x ∷ xs) a c first e h = elim (Bool-cases (is_accepted x)) [
      | inl hit ↦
          keep-some (is_accepted a) c first x.candidate_id (ground (arith, h, hit))
          ∙ ground (arith, hit)
      | inr miss ↦ find-snoc xs a c first e (ground (arith, h, miss)) ∙ ground (arith, miss)
    ]

    attempt_of-id :
        (c : FixCandidate) (r : Result String (Evidence fl.Carrier))
        → (attempt_of sys fl campaign cfg before target_finding c r).candidate_id ≡ c.id
    unfolding attempt_of
    attempt_of-id c (ok after) = refl
    attempt_of-id c (err e) = refl

    -- What the loop has gathered so far.
    record Gathered (p : List (FixAttempt fl.Carrier) × Option FixCandidate) : Type 0 where
      judged : All (Judged before.report.robustness_score) p.0
      first : id_of p.1 ≡ candidate_of (find is_accepted p.0)

    gather :
        (c : FixCandidate) (done : List (FixAttempt fl.Carrier)) (first : Option FixCandidate)
        (r : Result String (Evidence fl.Carrier))
        → Gathered (done, first)
        → Gathered (
          done ++ attempt_of sys fl campaign cfg before target_finding c r ∷ [],
          keep sys fl campaign
              (accepted (attempt_of sys fl campaign cfg before target_finding c r).gate)
              c
              first,
        )
    gather c done first r g =
        let a = attempt_of sys fl campaign cfg before target_finding c r in
        record {
          judged =
              All-append (Judged before.report.robustness_score) done (a ∷ []) g.judged
                (attempt_of-Judged c r, tt);
          first = find-snoc done a c first (attempt_of-id c r) g.first;
        }

    evaluate_all-Gathered :
        (cs : List FixCandidate) (index : ℕ) (done : List (FixAttempt fl.Carrier))
        (first : Option FixCandidate)
        → Gathered (done, first)
        → Returns Gathered
            (evaluate_all sys fl campaign cfg before target_finding index cs done first)
    unfolding evaluate_all evaluate_candidate
    evaluate_all-Gathered [] index done first g = Returns-pure (done, first) g
    evaluate_all-Gathered (c ∷ cs) index done first g =
        Returns-bind-of
          (λ a. Gathered (done ++ a ∷ [], keep sys fl campaign (accepted a.gate) c first)) _ _
          (Returns-bind (catch (campaign.prove_and_diagnose _ (some c.patch))) _
            (λ proved. Returns-pure _ (gather c done first proved g)))
          (λ a next. evaluate_all-Gathered cs (suc index) _ _ next)

    persist-first :
        (root : FilePath) (first : Option FixCandidate)
        → Returns (λ p. p.0 ≡ id_of first) (persist sys fl campaign root first)
    persist-first root none = Returns-pure (none, none) refl
    persist-first root (some c) =
        Returns-bind (write_proposal sys fl campaign root c) _ (λ path. Returns-pure _ refl)

  -- The report of a campaign that succeeds: the proposed candidate is that of the first attempt
  -- that the gate accepted, and there is none if no attempt was accepted; every accepted attempt
  -- was applied and proved, and its comparison helped in every respect the gate asks for; and
  -- each is compared with the score that the report gives for the code done it was.
  pub run_fix-Sifted :
      (root : FilePath) (target_finding : String) (generator : FixGenerator W) (w w' : W)
      (r : FixReport fl.Carrier)
      → run_fix sys fl campaign root target_finding generator cfg w ≡ (ok r, w')
      → Sifted r
  unfolding run_fix
  run_fix-Sifted root target_finding generator w w' r h =
      (Returns-bind {Q = Sifted} _ _ (λ repo. Returns-bind _ _ (λ commit.
          Returns-bind _ _ (λ before. Returns-bind _ _ (λ candidates.
            Returns-bind-of (Gathered before target_finding) _ _
              (evaluate_all-Gathered before target_finding candidates 0 [] none
                (record { judged = tt; first = refl }))
              (λ evaluated g.
                Returns-bind-of (λ p. p.0 ≡ id_of before target_finding evaluated.1) _ _
                  (persist-first before target_finding root evaluated.1)
                  (λ proposed named. Returns-bind _ _ (λ now.
                    Returns-pure _
                      (record { first = named ∙ g.first; judged = g.judged }))))))))).at
        w w' r h
