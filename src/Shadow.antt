-- ===== src/Shadow.antt =====
-- src/shadow/manager.rs, src/shadow/cleanup.rs and the git commands of src/shadow/worktree.rs: the
-- shadow copy of a project, made for one run and destroyed after it. How the files get into a
-- shadow (uncommitted changes, a plain copy, lent dependencies) is an argument.
pub mod Gone
use Prim.Native.Char.{Char, code}
use Prim.Native.String as Str
use navin_engine.Prelude.{
  ℕ, suc, String, Bool, true, false, not, ◌&&◌, ◌||◌, Option, none, some, List, [], ◌∷◌, ◌++◌, ◌==◌,
  if◌then◌else◌, Result, ok, err, Exec, pure, raise, ◌>>=◌, ◌>>◌,
}
use navin_engine.Prelude.Text.{concat, is_blank}
use navin_engine.System.{System, with_context, attempt, catch, gets, ensure}
use navin_engine.System.Path.{FilePath, display}
use navin_engine.Promote.Git.{git, git_quiet, is_repo, head_sha}
use navin_engine.Promote.Slug.{is_alphanumeric, is_dash}

pub data ShadowMode : Type 0 where
  worktree copy : ShadowMode

pub record Shadow : Type 0 where
  pub run_id : String
  pub path : FilePath
  pub sha : Option String
  pub mode : ShadowMode

-- src/shadow/worktree.rs (apply_uncommitted), filesystem.rs and deps.rs
pub record Materials (W : Type 0) : Type 0 where
  pub apply_uncommitted : FilePath → FilePath → Exec W String ℕ
  pub copy_project : FilePath → FilePath → Exec W String Unit
  pub lend_installed : FilePath → FilePath → Exec W String ℕ

abbrev is_id_char : Char → Bool
is_id_char c = is_alphanumeric c || is_dash c

abbrev all_id_chars : String → Bool
all_id_chars Str.[] = true
all_id_chars (Str.◌∷◌ c s) = is_id_char c && all_id_chars s

abbrev pub is_run_id : String → Bool
is_run_id run_id = not (is_blank run_id) && all_id_chars run_id

abbrev pub shadow_dir : FilePath → FilePath
shadow_dir root = root ++ ".navin" ∷ "shadow" ∷ []

module _ {W : Type 0} (sys : System W) where
  open sys use {exists, is_dir, create_dir_all, remove_dir_all, read_dir}

  -- `worktree::add_worktree`: detached at a commit
  abbrev add_worktree : FilePath → FilePath → String → Exec W String Unit
  add_worktree root dest sha =
      git_quiet sys root ("worktree" ∷ "add" ∷ "--detach" ∷ display dest ∷ sha ∷ [])

  -- `worktree::remove_worktree`: the directory goes whatever git says, and git's answer is returned
  unfoldable pub remove_worktree : FilePath → FilePath → Exec W String Unit
  remove_worktree root dest = do
    removed ←
        catch (git sys root ("worktree" ∷ "remove" ∷ "--force" ∷ "--force" ∷ display dest ∷ []))
    still_there ← gets (exists dest)
    if still_there then (do attempt (remove_dir_all dest); pure tt) else pure tt
    attempt (git sys root ("worktree" ∷ "prune" ∷ []))
    answer removed
    where
      answer : Result String String → Exec W String Unit
      answer (ok s) = pure tt
      answer (err e) = raise e

  -- The second half of `destroy_path`.
  abbrev remove_rest : FilePath → Exec W String Unit
  remove_rest dest = do
    still_there ← gets (exists dest)
    if still_there
        then with_context (concat ("cannot remove " ∷ display dest ∷ [])) (remove_dir_all dest)
        else pure tt

  unfoldable pub destroy_path : FilePath → FilePath → Exec W String Unit
  destroy_path root dest = do
    here ← gets (exists dest)
    if here
        then (do
          repo ← gets (is_repo sys root)
          if repo then (do attempt (remove_worktree root dest); pure tt) else pure tt
          remove_rest dest)
        else pure tt

  module _ (materials : Materials W) where
    open materials use {apply_uncommitted, copy_project, lend_installed}

    abbrev carry : FilePath → FilePath → Bool → Exec W String Unit
    carry root dest false = pure tt
    carry root dest true = do
      with_context "cannot carry uncommitted changes into the shadow" (apply_uncommitted root dest)
      pure tt

    abbrev create_worktree : FilePath → String → FilePath → Bool → Exec W String Shadow
    create_worktree root run_id dest include_uncommitted = do
      sha ← head_sha sys root
      add_worktree root dest sha
      carry root dest include_uncommitted
      lend_installed root dest
      pure (record { run_id = run_id; path = dest; sha = some sha; mode = worktree })

    abbrev create_copy : FilePath → String → FilePath → Exec W String Shadow
    create_copy root run_id dest = do
      copy_project root dest
      lend_installed root dest
      pure (record { run_id = run_id; path = dest; sha = none; mode = copy })

    -- A worktree in a repository, a copy elsewhere.
    abbrev pub create_at : FilePath → String → FilePath → Bool → Bool → Exec W String Shadow
    create_at root run_id dest include_uncommitted true =
        create_worktree root run_id dest include_uncommitted
    create_at root run_id dest include_uncommitted false = create_copy root run_id dest

    abbrev reclaim : FilePath → String → FilePath → Exec W String Unit
    reclaim root run_id dest = do
      here ← gets (exists dest)
      if here
          then with_context (concat ("cannot reclaim stale shadow " ∷ run_id ∷ []))
              (destroy_path root dest)
          else pure tt

    unfoldable pub create_inner : FilePath → String → Bool → Exec W String Shadow
    create_inner root run_id include_uncommitted = do
      ensure (is_run_id run_id) "run id must be alphanumeric/dashes"
      let dest : FilePath = shadow_dir root ++ run_id ∷ []
      reclaim root run_id dest
      with_context (concat ("cannot create " ∷ display (shadow_dir root) ∷ []))
          (create_dir_all (shadow_dir root))
      repo ← gets (is_repo sys root)
      create_at root run_id dest include_uncommitted repo

    abbrev pub create : FilePath → String → Exec W String Shadow
    create root run_id = create_inner root run_id false

    abbrev pub create_with_uncommitted : FilePath → String → Exec W String Shadow
    create_with_uncommitted root run_id = create_inner root run_id true

  abbrev pub destroy : FilePath → String → Exec W String Unit
  destroy root run_id = destroy_path root (shadow_dir root ++ run_id ∷ [])

  abbrev counted : ℕ → Result String Unit → ℕ
  counted n (ok _) = suc n
  counted n (err e) = n

  -- `cleanup_stale` over the names that `list` gave; a failure is logged, and the next is tried.
  unfoldable pub cleanup_stale : FilePath → ℕ → List String → Exec W String ℕ
  cleanup_stale root removed [] = pure removed
  cleanup_stale root removed (run_id ∷ run_ids) = do
    done ← catch (destroy root run_id)
    cleanup_stale root (counted removed done) run_ids

  module _ {A : Type 0} where
    -- The end of `CleanupGuard`: destroyed and answered for when the work is done, destroyed
    -- by the drop when it failed.
    abbrev pub release : FilePath → FilePath → Result String A → Exec W String A
    release root path (ok a) = do destroy_path root path; pure a
    release root path (err e) = do attempt (destroy_path root path); raise e

    -- Work in a shadow, under a guard.
    unfoldable pub guarded : FilePath → Shadow → (FilePath → Exec W String A) → Exec W String A
    guarded root shadow work = do done ← catch (work shadow.path); release root shadow.path done
