-- ===== src/Promote/Engine/Guarded.antt =====
-- A promotion that merged had the policy's word for it.
use mathlib.Core.Path.{subst}
use navin_engine.Prelude.{
  String, ◌≡◌, ◌≢◌, refl, ◌↔◌, Bool, true, false, Option, some, Result, ok, err, pure, ◌>>◌, arith,
  Returns, Returns-bind, returns_rules,
}
use navin_engine.System.{System, gets}
use navin_engine.System.Path.{FilePath}
use navin_engine.Policy.{EvolveConfig}
use navin_engine.Fix.Model.{FixPatch, FixCandidate, FixReport}
use navin_engine.Promote.Policy as Gate
use navin_engine.Promote.Policy.{PolicyDecision, decide}
use navin_engine.Promote.Policy.Laws.{is_merge, is_blocked, MayPromote, MayMerge, decide_iff}
use navin_engine.Promote.Certificate.{Certificate, Crypto, is_valid, issue}
use navin_engine.Promote.Record.{blocked, branch_only, merged, PromotionRecord, Codec, save}
use navin_engine.Promote.Bundle.{bundled, promote_without_git}
use navin_engine.Promote.Engine.{
  Plan, new_record, finish, unclean, push_reason, after_merge, try_merge, land, promote_with_git,
  carry_out, enact, promote,
}

-- A record that is not merged, and says so twice.
record Fresh (r : PromotionRecord) : Type 0 where
  unmerged : r.merged ≡ false
  nothing_done : r.outcome ≡ blocked

-- What a merge rests on: the record is settled, and a merged one holds a valid certificate and
-- was permitted by the policy.
pub record Authorised (config : EvolveConfig) (family : String) (r : PromotionRecord) : Type 0 where
  pub settled : (r.merged ≡ true) ↔ (r.outcome ≡ merged)
  pub held : Certificate
  pub holds : r.certificate ≡ some held
  pub valid : r.merged ≡ true → is_valid held ≡ true
  pub permitted : r.merged ≡ true → MayPromote config family true × MayMerge config
  pub let_through : r.outcome ≢ blocked → MayPromote config family (is_valid held)

-- What carrying out a decision does to the record `r`.
record Landed (held : Option Certificate) (want : Bool) (r : PromotionRecord) : Type 0 where
  certificate : r.certificate ≡ held
  wanted : r.merged ≡ true → want ≡ true
  outcome : (r.merged ≡ true) ↔ (r.outcome ≡ merged)

module _ {W : Type 0} (sys : System W) (codec : Codec) (root : FilePath) where
  finish-Returns :
      {Q : PromotionRecord → Type 0} (r : PromotionRecord)
      → Q r
      → Returns Q (finish sys codec root r)
  unfolding finish
  finish-Returns r q = search (returns_rules, q)

  after_merge-Landed :
      (r : PromotionRecord) (done : Result String Unit)
      → Fresh r
      → Landed r.certificate true (after_merge r done)
  after_merge-Landed r done fresh = ground arith

  unclean-Landed : (r : PromotionRecord) → Fresh r → Landed r.certificate true (unclean r)
  unclean-Landed r fresh = ground arith

  try_merge-Landed :
      (branch : String) (r : PromotionRecord)
      → Fresh r
      → Returns (Landed r.certificate true) (try_merge sys codec root branch r)
  unfolding try_merge
  try_merge-Landed branch r fresh =
      search (returns_rules, finish-Returns, after_merge-Landed, unclean-Landed)

  no_commit-Landed :
      (r : PromotionRecord) (want : Bool) (reason : String)
      → Fresh r
      → Landed r.certificate want (push_reason r reason)
  no_commit-Landed r want reason fresh = ground arith

  land-Landed :
      (branch : String) (want : Bool) (r : PromotionRecord) (sha : Result String String)
      → Fresh r
      → Returns (Landed r.certificate want) (land sys codec root branch want r sha)
  land-Landed branch want r (err e) fresh = search (returns_rules, finish-Returns, no_commit-Landed)
  land-Landed branch true r (ok sha) fresh =
      try_merge-Landed branch (record r { branch = some branch; commit_sha = some sha })
        (record { unmerged = fresh.unmerged; nothing_done = fresh.nothing_done })
  land-Landed branch false r (ok sha) fresh =
      finish-Returns
        (record r { branch = some branch; commit_sha = some sha; outcome = branch_only })
        (ground arith)

  module _ {F : Type 0} (plan : Plan F) (r : PromotionRecord) (want : Bool) (fresh : Fresh r) where
    land_prepared :
        (branch prev_head : String) (diff : Option String) (sha : Result String String)
        → Returns (Landed r.certificate want) (
            land sys codec root branch want
              (record r { prev_head = some prev_head; diff = diff })
              sha)
    land_prepared branch prev_head diff sha =
        land-Landed branch want (record r { prev_head = some prev_head; diff = diff }) sha
          (record { unmerged = fresh.unmerged; nothing_done = fresh.nothing_done })

    promote_with_git-Landed :
        Returns (Landed r.certificate want) (promote_with_git sys codec root plan r want)
    unfolding promote_with_git
    promote_with_git-Landed = search (returns_rules, land_prepared) depth 14

    bundled-Landed :
        (dir : FilePath) (patch : FixPatch) (done : Result String Unit)
        → Landed r.certificate want (bundled r dir patch want done)
    bundled-Landed dir patch done = ground arith

    saved :
        (r' : PromotionRecord)
        → Landed r.certificate want r'
        → Returns (Landed r.certificate want) (do save sys codec root r'; pure r')
    saved r' l = search (returns_rules, l)

    promote_without_git-Landed :
        Returns
          (Landed r.certificate want)
          (promote_without_git sys codec root r plan.candidate_json plan.candidate want)
    unfolding promote_without_git
    promote_without_git-Landed = search (returns_rules, bundled-Landed)

    carry_out-Landed : Returns (Landed r.certificate want) (carry_out sys codec root plan r want)
    unfolding carry_out
    carry_out-Landed = search (returns_rules, promote_with_git-Landed, promote_without_git-Landed)

  module _ {F : Type 0} (plan : Plan F) (r : PromotionRecord) (fresh : Fresh r) where
    pushed : (reason : String) → Fresh (push_reason r reason)
    pushed reason = record { unmerged = fresh.unmerged; nothing_done = fresh.nothing_done }

    enact-Landed :
        (d : PolicyDecision)
        → Returns (Landed r.certificate (is_merge d)) (enact sys codec root plan r d)
    enact-Landed (Gate.blocked reason) =
        finish-Returns (push_reason r reason) (no_commit-Landed r false reason fresh)
    enact-Landed (Gate.branch_only reason) =
        carry_out-Landed plan (push_reason r reason) false (pushed reason)
    enact-Landed (Gate.merge reason) =
        carry_out-Landed plan (push_reason r reason) true (pushed reason)

    -- A decision to block leaves the record as blocked.
    enact-Through :
        (d : PolicyDecision)
        → Returns
            (λ (q : PromotionRecord). q.outcome ≢ blocked → is_blocked d ≡ false)
            (enact sys codec root plan r d)
    enact-Through (Gate.blocked reason) =
        finish-Returns (push_reason r reason) (λ ne. absurd (ne fresh.nothing_done))
    enact-Through (Gate.branch_only reason) = record { at = λ w w' q h ne. refl }
    enact-Through (Gate.merge reason) = record { at = λ w w' q h ne. refl }

  module _ {F : Type 0} (crypto : Crypto) (report : FixReport F) (candidate : FixCandidate)
      (candidate_json : String) (config : EvolveConfig) where
    authorise :
        (c : Certificate) (r : PromotionRecord)
        → Landed (some c) (is_merge (decide config candidate.family (is_valid c))) r
        → (r.outcome ≢ blocked → is_blocked (decide config candidate.family (is_valid c)) ≡ false)
        → Authorised config candidate.family r
    authorise c r l through =
        let gate = λ (m : r.merged ≡ true).
          (decide_iff config candidate.family (is_valid c)).1.0 (l.wanted m) in
        record {
          settled = l.outcome;
          held = c;
          holds = l.certificate;
          valid = λ m. (gate m).0.certified;
          permitted = λ m.
              let (p, q) = gate m in
              (record { enabled = p.enabled; allowed = p.allowed; certified = refl }, q);
          let_through = λ ne. (decide_iff config candidate.family (is_valid c)).0.0 (through ne);
        }

    enact-Authorised :
        (plan : Plan F) (mode : String) (c : Certificate)
        → plan.certificate ≡ c
        → Returns (Authorised config candidate.family) (
            enact sys codec root plan
              (new_record plan mode)
              (decide config candidate.family (is_valid c)))
    enact-Authorised plan mode c e = record {
      at = λ w w' r h.
          authorise c r
            (subst (λ d. Landed (some d) (is_merge (decide config candidate.family (is_valid c))) r)
              e
              ((enact-Landed plan (new_record plan mode)
                  (record { unmerged = refl; nothing_done = refl })
                  (decide config candidate.family (is_valid c))).at
                w w' r h))
            ((enact-Through plan (new_record plan mode)
                (record { unmerged = refl; nothing_done = refl })
                (decide config candidate.family (is_valid c))).at
              w w' r h);
    }

    -- A promotion that succeeds says that it merged exactly where its outcome is Merged, holds
    -- its certificate, and has merged only if that certificate is valid, the policy is on, the
    -- family allowed, and the mode autonomous, or trusted with auto_merge. A record that does not
    -- say Blocked was let through: policy on, family allowed, certificate valid.
    pub promote-Authorised :
        (w w' : W) (r : PromotionRecord)
        → promote sys codec crypto root report candidate candidate_json config w ≡ (ok r, w')
        → Authorised config candidate.family r
    unfolding promote
    promote-Authorised w w' r h =
        (Returns-bind (gets sys.epoch_secs) _ (λ epoch.
            Returns-bind (issue crypto sys root report candidate) _
              (λ c. enact-Authorised _ config.evolve.mode c refl))).at
          w w' r h
