-- ===== src/Fix/Patch.antt =====
-- src/fix/patch.rs: a candidate patch is applied to a shadow directory. Spawning git and writing
-- to its standard input are the one operation `git_apply`.
pub mod Confined
use navin_engine.Prelude.{
  ℕ, String, Bool, Option, none, some, List, [], ◌∷◌, ◌++◌, if◌then◌else◌, Result, ok, err, Exec,
  pure, raise, ◌>>=◌, ◌>>◌,
}
use navin_engine.Prelude.Text.{concat, trim}
use navin_engine.System.{System, Output, with_context}
use navin_engine.System.Path.{FilePath, display, Component, normal, is_absolute, components, parent}
use navin_engine.Fix.Model.{FileEdit, FixPatch, files, unified_diff}

-- The loop over the components: only names are taken.
unfoldable pub push_components : FilePath → String → List Component → Result String FilePath
push_components out rel [] = ok out
push_components out rel (normal part ∷ cs) = push_components (out ++ part ∷ []) rel cs
push_components out rel (c ∷ cs) = err (concat ("unsafe path component in " ∷ rel ∷ []))

-- Resolve `rel` under `base`, rejecting anything that would escape it.
unfoldable pub safe_join : FilePath → String → Result String FilePath
unfolding push_components
safe_join base rel =
    if is_absolute rel
    then err (concat ("patch path must be relative: " ∷ rel ∷ []))
    else push_components base rel (components rel)

module _ {W : Type 0} (sys : System W) where
  open sys use {create_dir_all, write, git_apply}

  create_parent : Option FilePath → Exec W String Unit
  create_parent none = pure tt
  create_parent (some dir) =
      with_context (concat ("cannot create " ∷ display dir ∷ [])) (create_dir_all dir)

  abbrev write_edit : FileEdit → Result String FilePath → Exec W String Unit
  write_edit edit (err e) = raise e
  write_edit edit (ok target) = do
    create_parent (parent target)
    with_context (concat ("cannot write " ∷ display target ∷ [])) (write target edit.contents)

  apply_file_edit : FileEdit → FilePath → Exec W String Unit
  unfolding create_parent
  apply_file_edit edit shadow_dir = write_edit edit (safe_join shadow_dir edit.path)

  abbrev applied : Output → Exec W String Unit
  applied output =
      if output.success
      then pure tt
      else raise (concat ("git apply failed: " ∷ trim output.stderr ∷ []))

  apply_unified_diff : String → FilePath → Exec W String Unit
  apply_unified_diff diff shadow_dir = do output ← git_apply shadow_dir diff; applied output

  apply_edits : List FileEdit → FilePath → Exec W String Unit
  unfolding apply_file_edit
  apply_edits [] shadow_dir = pure tt
  apply_edits (edit ∷ edits) shadow_dir = do
    apply_file_edit edit shadow_dir
    apply_edits edits shadow_dir

  unfoldable pub apply : FixPatch → FilePath → Exec W String Unit
  unfolding apply_edits apply_unified_diff
  apply (files edits) shadow_dir = apply_edits edits shadow_dir
  apply (unified_diff diff) shadow_dir = apply_unified_diff diff shadow_dir
