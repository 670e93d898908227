-- ===== src/Promote/Engine.antt =====
-- src/promote/engine.rs, `promote`: from a fix report to a branch, and perhaps to a merge.
pub mod Guarded
use navin_engine.Prelude.{
  ℕ, String, Bool, true, false, Option, none, some, [], ◌∷◌, ◌++◌, if◌then◌else◌, Result, ok, err,
  Exec, pure, ◌>>=◌, ◌>>◌,
}
use navin_engine.Prelude.Text.{concat, show}
use navin_engine.System.{System, with_context, attempt, catch, gets, engine_dir, engine_version}
use navin_engine.System.Path.{FilePath, parent}
use navin_engine.Policy.{EvolveConfig}
use navin_engine.Fix.Model.{FixCandidate, FixReport}
use navin_engine.Fix.Patch.{apply}
use navin_engine.Fix.Diff.{capture}
use navin_engine.Promote.Policy as Gate
use navin_engine.Promote.Policy.{PolicyDecision, decide}
use navin_engine.Promote.Certificate.{Certificate, Crypto, is_valid, debug, issue}
use navin_engine.Promote.Git.{
  is_repo, head_sha, is_clean, create_branch, delete_branch, add_worktree, remove_worktree,
  commit_all, merge_ff_only,
}
use navin_engine.Promote.Record.{blocked, branch_only, merged, PromotionRecord, Codec, save}
use navin_engine.Promote.Slug.{sanitize}
use navin_engine.Promote.Bundle.{promote_without_git}

abbrev commit_message : {F : Type 0} → FixReport F → FixCandidate → Certificate → String
commit_message report candidate cert = concat (
    "navin evolve: fix "
    ∷ report.target_finding
    ∷ "\n\n"
    ∷ candidate.rationale
    ∷ "\n\nCandidate: "
    ∷ candidate.id
    ∷ "\nFamily: "
    ∷ candidate.family
    ∷ "\nRobustness "
    ∷ show cert.score_before
    ∷ " -> "
    ∷ show cert.score_after
    ∷ " (verdict "
    ∷ debug cert.verdict_after
    ∷ ")\nCertificate: "
    ∷ cert.checksum
    ∷ "\n\nPrepared by navin-engine "
    ∷ engine_version
    ∷ ". Review before keeping."
    ∷ [])

-- What the promotion knows when the policy has decided.
pub record Plan (F : Type 0) : Type 0 where
  pub report : FixReport F
  pub candidate : FixCandidate
  pub candidate_json : String
  pub certificate : Certificate
  pub epoch : ℕ
  pub slug : String

abbrev pub promotion_id : String → ℕ → String
promotion_id slug epoch = concat ("promo-" ∷ slug ∷ "-" ∷ show epoch ∷ [])

abbrev pub branch_name : String → ℕ → String
branch_name slug epoch = concat ("navin/evolve/" ∷ slug ∷ "-" ∷ show epoch ∷ [])

abbrev pub new_record : {F : Type 0} → Plan F → String → PromotionRecord
new_record plan mode = record {
  schema = "navin-promotion/v1";
  id = promotion_id plan.slug plan.epoch;
  finding = plan.report.target_finding;
  candidate_id = plan.candidate.id;
  mode = mode;
  outcome = blocked;
  reasons = [];
  branch = none;
  commit_sha = none;
  prev_head = none;
  merged = false;
  certificate = some plan.certificate;
  diff = none;
  pushed_to = none;
  pull_request = none;
  created_at = concat ("epoch:" ∷ show plan.epoch ∷ []);
  rolled_back_at = none;
}

abbrev pub push_reason : PromotionRecord → String → PromotionRecord
push_reason r reason = record r { reasons = r.reasons ++ reason ∷ [] }

-- The record after the merge was tried.
abbrev after_merge : PromotionRecord → Result String Unit → PromotionRecord
after_merge r (ok _) = record r {
  merged = true;
  outcome = merged;
  reasons = r.reasons ++ "fast-forward merged into the active branch" ∷ [];
}
after_merge r (err e) = record r {
  outcome = branch_only;
  reasons =
      r.reasons
      ++ concat
          ("merge skipped (not fast-forwardable): " ∷ e ∷ "; branch left for manual merge" ∷ [])
        ∷ [];
}

abbrev unclean : PromotionRecord → PromotionRecord
unclean r = record r {
  outcome = branch_only;
  reasons = r.reasons ++ "working tree not clean; branch left for manual merge" ∷ [];
}

-- `unwrap_or(false)`
abbrev pub is_true : Result String Bool → Bool
is_true (ok b) = b
is_true (err e) = false

module _ {W : Type 0} (sys : System W) (codec : Codec) where
  -- Save, and return the record.
  unfoldable pub finish : FilePath → PromotionRecord → Exec W String PromotionRecord
  finish root r = do save sys codec root r; pure r

  -- The closure that prepares the commit; the diff that it captured comes back beside it.
  abbrev commit_in :
      {F : Type 0}
      → Plan F
      → FilePath
      → Result String Unit
      → Exec W String (Result String String × Option String)
  commit_in plan worktree (err e) = pure (err e, none)
  commit_in plan worktree (ok _) = do
    diff ← capture sys worktree
    sha ←
        catch (commit_all sys worktree (commit_message plan.report plan.candidate plan.certificate))
    pure (sha, diff)

  unfoldable pub prepare_commit :
      {F : Type 0} → Plan F → FilePath → Exec W String (Result String String × Option String)
  prepare_commit plan worktree = do
    applied ← catch (
        with_context "applying the proposal to the promotion worktree"
          (apply sys plan.candidate.patch worktree))
    commit_in plan worktree applied

  unfoldable pub try_merge : FilePath → String → PromotionRecord → Exec W String PromotionRecord
  try_merge root branch r = do
    clean ← catch (is_clean sys root)
    if is_true clean
        then (do done ← catch (merge_ff_only sys root branch); finish root (after_merge r done))
        else finish root (unclean r)

  -- What follows the commit: the merge, if it is wanted.
  abbrev pub land :
      FilePath
      → String
      → Bool
      → PromotionRecord
      → Result String String
      → Exec W String PromotionRecord
  land root branch want_merge r (err e) = do
    attempt (delete_branch sys root branch)
    finish root (push_reason r (concat ("commit failed: " ∷ e ∷ [])))
  land root branch want_merge r (ok sha) =
      let r' = record r { branch = some branch; commit_sha = some sha } in
      if want_merge
      then try_merge root branch r'
      else finish root (record r' { outcome = branch_only })

  abbrev create_parent : Option FilePath → Exec W String (Option Unit)
  create_parent none = pure none
  create_parent (some dir) = attempt (sys.create_dir_all dir)

  unfoldable pub promote_with_git :
      {F : Type 0} → FilePath → Plan F → PromotionRecord → Bool → Exec W String PromotionRecord
  promote_with_git root plan r want_merge = do
    prev_head ← head_sha sys root
    let branch = branch_name plan.slug plan.epoch
    with_context (concat ("creating branch " ∷ branch ∷ []))
        (create_branch sys root branch prev_head)
    let worktree = engine_dir root ++ "promote" ∷ r.id ∷ []
    create_parent (parent worktree)
    add_worktree sys root worktree branch
    prepared ← prepare_commit plan worktree
    attempt (remove_worktree sys root worktree)
    land root branch want_merge (record r { prev_head = some prev_head; diff = prepared.1 })
        prepared.0

  unfoldable pub carry_out :
      {F : Type 0} → FilePath → Plan F → PromotionRecord → Bool → Exec W String PromotionRecord
  carry_out root plan r want_merge = do
    repo ← gets (is_repo sys root)
    if repo
        then promote_with_git root plan r want_merge
        else promote_without_git sys codec root r plan.candidate_json plan.candidate want_merge

  abbrev pub enact :
      {F : Type 0}
      → FilePath
      → Plan F
      → PromotionRecord
      → PolicyDecision
      → Exec W String PromotionRecord
  enact root plan r (Gate.blocked reason) = finish root (push_reason r reason)
  enact root plan r (Gate.branch_only reason) = carry_out root plan (push_reason r reason) false
  enact root plan r (Gate.merge reason) = carry_out root plan (push_reason r reason) true

  -- `candidate_json` is what serde_json prints of the candidate.
  unfoldable pub promote :
      {F : Type 0}
      → Crypto
      → FilePath
      → FixReport F
      → FixCandidate
      → String
      → EvolveConfig
      → Exec W String PromotionRecord
  promote {F} crypto root report candidate candidate_json config = do
    epoch ← gets sys.epoch_secs
    certificate ← issue crypto sys root report candidate
    let plan : Plan F = record {
      report = report;
      candidate = candidate;
      candidate_json = candidate_json;
      certificate = certificate;
      epoch = epoch;
      slug = sanitize report.target_finding;
    }
    enact root plan (new_record plan config.evolve.mode)
        (decide config candidate.family (is_valid certificate))
