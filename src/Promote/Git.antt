-- ===== src/Promote/Git.antt =====
-- src/promote/git.rs: the git commands of a promotion.
use navin_engine.Prelude.{
  String, Bool, true, false, Option, none, some, contains, List, [], ◌∷◌, ◌++◌, if◌then◌else◌, Exec,
  pure, raise, ◌>>=◌, ◌>>◌,
}
use navin_engine.Prelude.Text.{concat, join, trim, is_blank}
use navin_engine.Prelude.Patterns.{lines, split_once}
use navin_engine.System.{System, Output, attempt, gets}
use navin_engine.System.Path.{FilePath, display}

-- `output.status.success()`, and its `bail!`
unfoldable pub checked : {W : Type 0} → List String → Output → Exec W String String
checked args output =
    if output.success
    then pure (trim output.stdout)
    else raise (concat ("git " ∷ join " " args ∷ " failed: " ∷ trim output.stderr ∷ []))

module _ {W : Type 0} (sys : System W) where
  open sys use {run_git, exists, remove_dir_all}

  unfoldable pub git : FilePath → List String → Exec W String String
  unfolding checked
  git root args = do output ← run_git root args; checked args output

  -- A command whose output is not used.
  abbrev pub git_quiet : FilePath → List String → Exec W String Unit
  git_quiet root args = do git root args; pure tt

  unfoldable pub is_repo : FilePath → W → Bool
  is_repo root = exists (root ++ ".git" ∷ [])

  unfoldable pub head_sha : FilePath → Exec W String String
  head_sha root = git root ("rev-parse" ∷ "HEAD" ∷ [])

  unfoldable pub current_branch : FilePath → Exec W String String
  current_branch root = git root ("rev-parse" ∷ "--abbrev-ref" ∷ "HEAD" ∷ [])

  unfoldable pub is_clean : FilePath → Exec W String Bool
  is_clean root = do
    changes ← git root ("status" ∷ "--porcelain" ∷ "--untracked-files=no" ∷ [])
    pure (is_blank changes)

  unfoldable pub create_branch : FilePath → String → String → Exec W String Unit
  create_branch root name at = git_quiet root ("branch" ∷ name ∷ at ∷ [])

  unfoldable pub delete_branch : FilePath → String → Exec W String Unit
  delete_branch root name = git_quiet root ("branch" ∷ "-D" ∷ name ∷ [])

  unfoldable pub add_worktree : FilePath → FilePath → String → Exec W String Unit
  add_worktree root dest branch = git_quiet root ("worktree" ∷ "add" ∷ display dest ∷ branch ∷ [])

  -- Each step is tried, whatever became of the one before.
  unfoldable pub remove_worktree : FilePath → FilePath → Exec W String Unit
  remove_worktree root dest = do
    attempt (git root ("worktree" ∷ "remove" ∷ "--force" ∷ display dest ∷ []))
    still_there ← gets (exists dest)
    if still_there then (do attempt (remove_dir_all dest); pure tt) else pure tt
    attempt (git root ("worktree" ∷ "prune" ∷ []))
    pure tt

  unfoldable pub commit_all : FilePath → String → Exec W String String
  unfolding head_sha
  commit_all worktree_dir message = do
    git worktree_dir ("add" ∷ "-A" ∷ [])
    git worktree_dir ("commit" ∷ "--no-verify" ∷ "-m" ∷ message ∷ [])
    head_sha worktree_dir

  unfoldable pub merge_ff_only : FilePath → String → Exec W String Unit
  merge_ff_only root branch = git_quiet root ("merge" ∷ "--ff-only" ∷ branch ∷ [])

  unfoldable pub revert : FilePath → String → Exec W String String
  unfolding head_sha
  revert root sha = do git root ("revert" ∷ "--no-edit" ∷ sha ∷ []); head_sha root

  -- The publishing of a branch.
  abbrev url_of : Option String → Option String
  url_of none = none
  url_of (some url) = if is_blank url then none else some url

  unfoldable pub remote_url : FilePath → String → Exec W String (Option String)
  remote_url root remote = do
    url ← attempt (git root ("remote" ∷ "get-url" ∷ remote ∷ []))
    pure (url_of url)

  -- The lines that are not blank, trimmed.
  abbrev names_in : List String → List String
  names_in [] = []
  names_in (l ∷ ls) = let rest = names_in ls in if is_blank (trim l) then rest else trim l ∷ rest

  abbrev first_of : List String → Option String
  first_of [] = none
  first_of (name ∷ names) = some name

  abbrev preferred : Option String → Option String
  preferred none = none
  preferred (some remotes) =
      let names = names_in (lines remotes) in
      if contains "origin" names then some "origin" else first_of names

  unfoldable pub default_remote : FilePath → Exec W String (Option String)
  default_remote root = do remotes ← attempt (git root ("remote" ∷ [])); pure (preferred remotes)

  abbrev behind_slash : Option String → Option String
  behind_slash none = none
  behind_slash (some reference) = tail_of (split_once "/" reference)
    where
      tail_of : Option (String × String) → Option String
      tail_of none = none
      tail_of (some (before, branch)) = some branch

  abbrev or_current : FilePath → Option String → Exec W String String
  or_current root none = current_branch root
  or_current root (some branch) = pure branch

  unfoldable pub base_branch : FilePath → String → Exec W String String
  unfolding current_branch
  base_branch root remote = do
    reference ← attempt (
        git root
          ("symbolic-ref" ∷ "--short" ∷ concat ("refs/remotes/" ∷ remote ∷ "/HEAD" ∷ []) ∷ []))
    or_current root (behind_slash reference)

  unfoldable pub push_branch : FilePath → String → String → Exec W String Unit
  push_branch root remote branch = git_quiet root ("push" ∷ "--set-upstream" ∷ remote ∷ branch ∷ [])

  abbrev is_done : Option String → Bool
  is_done none = false
  is_done (some s) = true

  unfoldable pub branch_exists : FilePath → String → Exec W String Bool
  branch_exists root name = do
    found ←
        attempt (
          git root ("rev-parse" ∷ "--verify" ∷ "--quiet" ∷ concat ("refs/heads/" ∷ name ∷ []) ∷ []))
    pure (is_done found)
