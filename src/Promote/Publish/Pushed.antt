-- ===== src/Promote/Publish/Pushed.antt =====
-- src/promote/publish.rs: what publishing a promotion rests on, and what it changes.
use navin_engine.Prelude.{
  [], ◌∷◌, ◌++◌, String, ◌≡◌, refl, true, false, not, Option, none, some, ok, Ran, Returns,
  Returns-pure, Returns-raise, Returns-bind, Returns-bind-of, >>=-eq-ok, arith,
}
use navin_engine.System.{System, Returns-with_context, Returns-ensure}
use navin_engine.System.Path.{FilePath}
use navin_engine.Prelude.Text.{concat}
use navin_engine.Promote.Engine.{finish}
use navin_engine.Promote.Git.{push_branch}
use navin_engine.Promote.Operator.{is_some}
use navin_engine.Promote.Publish.{GitHubCli, publish_to, publish_branch, publish}
use navin_engine.Promote.Record.{PromotionRecord, Codec, load}

module _ {W : Type 0} (sys : System W) (codec : Codec) (cli : GitHubCli W) (root : FilePath) where
  -- The record `r` is `old`, with its branch pushed: only where it was pushed to, the link and a
  -- further reason changed.
  pub record Published (old r : PromotionRecord) : Type 0 where
    pub standing : is_some old.rolled_back_at ≡ false
    pub branch : String
    pub on_branch : old.branch ≡ some branch
    pub remote : String
    pub pushed : Ran (push_branch sys root remote branch) tt
    pub link : Option String
    pub note : String
    pub result : r ≡ record old {
      pushed_to = some (concat (remote ∷ "/" ∷ branch ∷ []));
      pull_request = link;
      reasons = old.reasons ++ note ∷ [];
    }

  finish-Published :
      (r q : PromotionRecord) → Published r q → Returns (Published r) (finish sys codec root q)
  unfolding finish
  finish-Published r q h = Returns-bind _ _ (λ saved. Returns-pure q h)

  publish_to-Published :
      (r : PromotionRecord) (branch : String) (remote : Option String)
      → is_some r.rolled_back_at ≡ false
      → r.branch ≡ some branch
      → Returns (Published r) (publish_to sys codec cli root r branch remote)
  publish_to-Published r branch none s b = Returns-raise _
  publish_to-Published r branch (some remote) s b =
      Returns-bind-of (Ran (push_branch sys root remote branch)) _ _ (Returns-with_context _ _)
        (λ done ran. Returns-bind _ _ (λ base. Returns-bind _ _ (λ request.
          Returns-bind _ _ (λ news. finish-Published r _ (record {
            standing = s;
            branch = branch;
            on_branch = b;
            remote = remote;
            pushed = ran;
            link = news.0;
            note = news.1;
            result = refl;
          })))))

  publish_branch-Published :
      (id : String) (r : PromotionRecord) (branch : Option String)
      → is_some r.rolled_back_at ≡ false
      → r.branch ≡ branch
      → Returns (Published r) (publish_branch sys codec cli root id r branch)
  publish_branch-Published id r none s b = Returns-raise _
  publish_branch-Published id r (some branch) s b = Returns-bind _ _ (λ repo.
      Returns-bind _ _ (λ git. Returns-bind _ _ (λ found.
        Returns-bind _ _
          (λ present. Returns-bind _ _ (λ remote. publish_to-Published r branch remote s b)))))

  -- A promotion is published only if its record was not rolled back and has a branch, and that
  -- branch was pushed; the record that comes of it differs from the one on disk only in where it
  -- was pushed to, in its link, and in one more reason at the end.
  pub publish-Published :
      (id : String) (w w' : W) (r : PromotionRecord)
      → publish sys codec cli root id w ≡ (ok r, w')
      → (old : PromotionRecord) × ((load sys codec root id w).0 ≡ ok old) × Published old r
  unfolding publish
  publish-Published id w w' r h =
      let (old, e, g) = >>=-eq-ok (load sys codec root id) _ w h in
      (
        old,
        e,
        (Returns-bind-of (λ _. not (is_some old.rolled_back_at) ≡ true) {Q = Published old} _ _
              (Returns-ensure _ _)
              (λ _ s. publish_branch-Published id old old.branch (ground (arith, s)) refl)).at
            (load sys codec root id w).1 w' r g,
      )
