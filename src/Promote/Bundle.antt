-- ===== src/Promote/Bundle.antt =====
-- src/promote/engine.rs, `promote_without_git` and `write_patch_bundle`: a promotion where there
-- is no repository.
use navin_engine.Prelude.{
  String, Bool, true, false, not, ◌&&◌, Option, none, some, List, [], ◌∷◌, ◌++◌, map, any,
  if◌then◌else◌, Result, ok, err, Exec, pure, ◌>>=◌, ◌>>◌,
}
use navin_engine.Prelude.Text.{concat, join}
use navin_engine.System.{System, with_context, gets, ensure, catch}
use navin_engine.System.Path.{
  FilePath, display, Component, parent_dir, normal, is_absolute, components, parent,
}
use navin_engine.Fix.Model.{FileEdit, FixPatch, FixCandidate, files, unified_diff}
use navin_engine.Promote.Record.{PromotionRecord, branch_only, Codec, promotions_dir, save}

-- `Path::join` with a relative path: its names, its `.` dropped.
unfoldable pub join_names : FilePath → List Component → FilePath
join_names base [] = base
join_names base (normal s ∷ cs) = join_names (base ++ s ∷ []) cs
join_names base (parent_dir ∷ cs) = join_names (base ++ ".." ∷ []) cs
join_names base (_ ∷ cs) = join_names base cs

abbrev is_parent : Component → Bool
is_parent parent_dir = true
is_parent _ = false

abbrev is_confined : String → Bool
is_confined rel = not (is_absolute rel) && not (any is_parent (components rel))

abbrev how_to : FixPatch → String
how_to (unified_diff diff) =
    "Apply with: `patch -p1 < patch.diff` (or `git apply patch.diff` in a repo)."
how_to (files edits) = concat (
    "Copy the files under `after/` over the project root (current versions are kept "
    ∷ "under `before/`): "
    ∷ join ", " (map (λ e. e.path) edits)
    ∷ "."
    ∷ [])

abbrev readme : FixPatch → String
readme patch = concat (
    "# Promotion bundle\n\nThis workspace is not a git repository, so the accepted "
    ∷ "change was written here instead of on a branch.\n\n- `candidate.json`: the full "
    ∷ "accepted patch and its rationale.\n- "
    ∷ how_to patch
    ∷ "\n\nRolling back this promotion "
    ∷ "(`navin-engine rollback --id <promotion>`) deletes this bundle.\n"
    ∷ [])

abbrev git_free : String
git_free = "auto-merge is unavailable without git; apply the bundle yourself"

abbrev diff_of : FixPatch → Option String → Option String
diff_of (unified_diff diff) old = some diff
diff_of (files edits) old = old

-- The record after the bundle was written, or was not.
abbrev pub bundled :
    PromotionRecord → FilePath → FixPatch → Bool → Result String Unit → PromotionRecord
bundled r dir patch want_merge (ok _) = record r {
  outcome = branch_only;
  reasons =
      r.reasons
      ++ concat
          ("no git repository: patch bundle written to " ∷ display dir ∷ " for manual review" ∷ [])
        ∷ (if want_merge then git_free ∷ [] else []);
  diff = diff_of patch r.diff;
}
bundled r dir patch want_merge (err e) = record r {
  reasons = r.reasons ++ concat ("patch bundle could not be written: " ∷ e ∷ []) ∷ [];
}

module _ {W : Type 0} (sys : System W) where
  open sys use {is_file, create_dir_all, write, copy}

  create_parent : Option FilePath → Exec W String Unit
  create_parent none = pure tt
  create_parent (some dir) = create_dir_all dir

  -- One edit: the new contents under `after`, the current file under `before`.
  write_after : FilePath → FilePath → FileEdit → Exec W String Unit
  unfolding create_parent join_names
  write_after root dir edit = do
    ensure (is_confined edit.path) (concat ("unsafe path in patch: " ∷ edit.path ∷ []))
    let rel = components edit.path
    let after = join_names (dir ++ "after" ∷ []) rel
    create_parent (parent after)
    write after edit.contents
    let current = join_names root rel
    let before = join_names (dir ++ "before" ∷ []) rel
    here ← gets (is_file current)
    if here then (do create_parent (parent before); copy current before) else pure tt

  write_edits : FilePath → FilePath → List FileEdit → Exec W String Unit
  unfolding write_after
  write_edits root dir [] = pure tt
  write_edits root dir (edit ∷ edits) = do write_after root dir edit; write_edits root dir edits

  abbrev write_patch : FilePath → FilePath → FixPatch → Exec W String Unit
  write_patch root dir (unified_diff diff) = write (dir ++ "patch.diff" ∷ []) diff
  write_patch root dir (files edits) = write_edits root dir edits

  -- `candidate_json` is what serde_json prints of the candidate.
  unfoldable pub write_patch_bundle :
      FilePath → FilePath → String → FixCandidate → Exec W String Unit
  unfolding write_edits
  write_patch_bundle root dir candidate_json candidate = do
    with_context (concat ("cannot create " ∷ display dir ∷ [])) (create_dir_all dir)
    write (dir ++ "candidate.json" ∷ []) candidate_json
    write_patch root dir candidate.patch
    write (dir ++ "README.md" ∷ []) (readme candidate.patch)

  module _ (codec : Codec) where
    unfoldable pub promote_without_git :
        FilePath → PromotionRecord → String → FixCandidate → Bool → Exec W String PromotionRecord
    unfolding write_patch_bundle
    promote_without_git root r candidate_json candidate want_merge = do
      let dir = promotions_dir root ++ r.id ∷ []
      written ← catch (write_patch_bundle root dir candidate_json candidate)
      let r' = bundled r dir candidate.patch want_merge written
      save sys codec root r'
      pure r'
