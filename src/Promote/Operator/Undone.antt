-- ===== src/Promote/Operator/Undone.antt =====
-- src/promote/engine.rs, `rollback`: what undoing a promotion did.
use navin_engine.Prelude.{
  String, ◌≡◌, refl, Bool, false, Option, none, some, arith, Returns, Returns-bind, Returns-bind-of,
  Returns-raise, Returns-pure, Returns-if, Returns-map, Ran, ◌⊎◌, inl, inr, [], ◌∷◌, ◌++◌,
}
use navin_engine.Promote.Git.{delete_branch, revert}
use navin_engine.System.{System, Returns-with_context, gets}
use navin_engine.System.Path.{FilePath}
use navin_engine.Promote.Record.{
  PromotionOutcome, blocked, branch_only, merged, PromotionRecord, Codec, promotions_dir,
}
use navin_engine.Promote.Operator.{undo, undo_merge, undo_branch}

module _ {W : Type 0} (sys : System W) (root : FilePath) (id : String) where
  abbrev UndoneBranch : Option String → Type 0
  UndoneBranch (some branch) = Ran (delete_branch sys root branch) tt
  UndoneBranch none =
      let bundle = promotions_dir root ++ id ∷ [] in
      ((w : W) × (sys.is_dir bundle w ≡ false)) ⊎ Ran (sys.remove_dir_all bundle) tt

  -- What was done is undone: the commit of a merged promotion is reverted, the branch of one that
  -- waits is deleted, and without a branch its bundle is removed, unless it is not there.
  abbrev pub Undone : PromotionRecord → PromotionOutcome → Type 0
  Undone old merged =
      (sha : String) × (old.commit_sha ≡ some sha)
      × ((out : String) × Ran (revert sys root sha) out)
  Undone old branch_only = UndoneBranch old.branch
  Undone old blocked = Unit

module _ {W : Type 0} (sys : System W) (codec : Codec) (root : FilePath) (id : String) where
  gets-Returns : (f : W → Bool) → Returns (λ b. (w : W) × (f w ≡ b)) (gets f)
  unfolding gets
  gets-Returns f = record { at = λ w w' b h. (w, ground (arith, h)) }

  undo_merge-Undone :
      (old : PromotionRecord) (commit : Option String)
      → old.commit_sha ≡ commit
      → Returns (λ _. Undone sys root id old merged) (undo_merge sys codec root old commit)
  undo_merge-Undone old none e = Returns-raise _
  undo_merge-Undone old (some sha) e =
      Returns-bind-of (λ out. Ran (revert sys root sha) out) _ _ (Returns-with_context _ _)
        (λ out ran. record { at = λ w w' u h. (sha, e, (out, ran)) })

  undo_branch-Undone :
      (branch : Option String)
      → Returns (λ _. UndoneBranch sys root id branch) (undo_branch sys codec root id branch)
  undo_branch-Undone (some branch) =
      Returns-bind _ _ (λ repo. Returns-bind _ _ (λ _. Returns-with_context _ _))
  undo_branch-Undone none =
      let bundle = promotions_dir root ++ id ∷ [] in
      Returns-bind-of (λ here. (w : W) × (sys.is_dir bundle w ≡ here)) (gets (sys.is_dir bundle)) _
        (gets-Returns (sys.is_dir bundle))
        (λ here is.
          Returns-if here _ _ (λ _. Returns-map (λ _ ran. inr ran) (Returns-with_context _ _))
            (λ no. Returns-pure tt (inl (is.0, ground (arith, is.1, no)))))

  pub undo-Undone :
      (old : PromotionRecord) (outcome : PromotionOutcome)
      → Returns (λ _. Undone sys root id old outcome) (undo sys codec root id old outcome)
  undo-Undone old merged =
      Returns-bind _ _ (λ repo. Returns-bind _ _ (λ _. undo_merge-Undone old old.commit_sha refl))
  undo-Undone old branch_only = undo_branch-Undone old.branch
  undo-Undone old blocked = Returns-pure tt tt
