-- ===== src/Promote/Operator.antt =====
-- src/promote/engine.rs, `merge` and `rollback`: what an operator asks of a recorded promotion.
pub mod Stored
pub mod Undone
pub mod Once
use navin_engine.Prelude.{
  String, Bool, true, false, not, Option, none, some, [], ◌∷◌, ◌++◌, if◌then◌else◌, Exec, pure,
  raise, ◌>>=◌, ◌>>◌,
}
use navin_engine.Prelude.Text.{concat}
use navin_engine.System.{System, with_context, attempt, catch, gets, ensure, now_epoch}
use navin_engine.System.Path.{FilePath, display}
use navin_engine.Promote.Certificate.{Certificate, Crypto, is_authentic}
use navin_engine.Promote.Git.{is_repo, is_clean, delete_branch, merge_ff_only, revert}
use navin_engine.Promote.Record.{
  PromotionOutcome, blocked, branch_only, merged, PromotionRecord, Codec, promotions_dir, load,
}
use navin_engine.Promote.Engine.{is_true, finish}

abbrev pub is_some : Option String → Bool
is_some none = false
is_some (some s) = true

abbrev pub is_branch_only : PromotionOutcome → Bool
is_branch_only branch_only = true
is_branch_only _ = false

-- The record that a one-click merge leaves.
abbrev pub merged_record : PromotionRecord → PromotionRecord
merged_record r = record r {
  merged = true;
  outcome = merged;
  reasons = r.reasons ++ "merged on explicit operator demand (one-click merge)" ∷ [];
}

module _ {W : Type 0} (sys : System W) (codec : Codec) where
  open sys use {is_dir, remove_dir_all}

  -- `merge` behind the certificate's check, whose `none` is a panic.
  abbrev merge_authentic :
      FilePath → String → PromotionRecord → String → Option Bool → Exec W String PromotionRecord
  merge_authentic root id r branch none = raise "panicked: not a char boundary"
  merge_authentic root id r branch (some false) =
      raise (concat ("certificate of " ∷ id ∷ " failed authenticity" ∷ []))
  merge_authentic root id r branch (some true) = do
    repo ← gets (is_repo sys root)
    ensure repo "workspace is not a git repository"
    clean ← catch (is_clean sys root)
    ensure (is_true clean) "working tree has uncommitted changes; commit or stash them first"
    with_context (concat ("fast-forward merging " ∷ branch ∷ [])) (merge_ff_only sys root branch)
    finish sys codec root (merged_record r)

  module _ (crypto : Crypto) where
    abbrev merge_certified :
        FilePath
        → String
        → PromotionRecord
        → String
        → Option Certificate
        → Exec W String PromotionRecord
    merge_certified root id r branch none = raise "promotion has no certificate"
    merge_certified root id r branch (some c) =
        merge_authentic root id r branch (is_authentic crypto c)

    abbrev merge_branch :
        FilePath → String → PromotionRecord → Option String → Exec W String PromotionRecord
    merge_branch root id r none = raise (
        concat (
          "promotion " ∷ id ∷ " is a patch bundle (workspace without git); apply it manually from "
          ∷ ".navin/promotions/" ∷ id ∷ "/" ∷ []))
    merge_branch root id r (some branch) = merge_certified root id r branch r.certificate

    unfoldable pub merge_loaded :
        FilePath → String → PromotionRecord → Exec W String PromotionRecord
    merge_loaded root id r = do
      ensure (not (is_some r.rolled_back_at))
          (concat ("promotion " ∷ id ∷ " was rolled back; nothing to merge" ∷ []))
      ensure (not r.merged) (concat ("promotion " ∷ id ∷ " is already merged" ∷ []))
      ensure (is_branch_only r.outcome)
          (concat ("promotion " ∷ id ∷ " has no merge-ready branch" ∷ []))
      merge_branch root id r r.branch

    unfoldable pub merge : FilePath → String → Exec W String PromotionRecord
    merge root id = do r ← load sys codec root id; merge_loaded root id r

  abbrev drop_branch : FilePath → Option String → Exec W String Unit
  drop_branch root none = pure tt
  drop_branch root (some branch) = do attempt (delete_branch sys root branch); pure tt

  abbrev pub undo_merge : FilePath → PromotionRecord → Option String → Exec W String Unit
  undo_merge root r none = raise "merged record without a commit sha"
  undo_merge root r (some sha) = do
    with_context "reverting the merged commit" (revert sys root sha)
    drop_branch root r.branch

  abbrev pub undo_branch : FilePath → String → Option String → Exec W String Unit
  undo_branch root id (some branch) = do
    repo ← gets (is_repo sys root)
    ensure repo "workspace is not a git repository"
    with_context (concat ("deleting branch " ∷ branch ∷ [])) (delete_branch sys root branch)
  undo_branch root id none = do
    let bundle = promotions_dir root ++ id ∷ []
    here ← gets (is_dir bundle)
    if here
        then with_context (concat ("removing bundle " ∷ display bundle ∷ []))
            (remove_dir_all bundle)
        else pure tt

  -- The `match` on the outcome.
  abbrev undo : FilePath → String → PromotionRecord → PromotionOutcome → Exec W String Unit
  undo root id r merged = do
    repo ← gets (is_repo sys root)
    ensure repo "workspace is not a git repository"
    undo_merge root r r.commit_sha
  undo root id r branch_only = undo_branch root id r.branch
  undo root id r blocked = pure tt

  unfoldable pub rollback_loaded :
      FilePath → String → PromotionRecord → Exec W String PromotionRecord
  rollback_loaded root id r = do
    ensure (not (is_some r.rolled_back_at))
        (concat ("promotion " ∷ id ∷ " was already rolled back" ∷ []))
    undo root id r r.outcome
    now ← gets (now_epoch sys)
    finish sys codec root (record r { rolled_back_at = some now })

  unfoldable pub rollback : FilePath → String → Exec W String PromotionRecord
  rollback root id = do r ← load sys codec root id; rollback_loaded root id r
