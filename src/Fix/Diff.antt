-- ===== src/Fix/Diff.antt =====
-- src/fix/diff.rs: the unified diff of an applied patch, read from git in the shadow.
use Prim.Native.Char.{Char, code}
use Prim.Native.String as Str
use Prim.Native.String.{String, len, slice}
use text.Mathlib.Text.{is_char_boundary}
use navin_engine.Prelude.{
  ℕ, zero, suc, ◌*◌, ◌&&◌, Option, none, some, List, [], ◌∷◌, ◌==◌, leb, if◌then◌else◌, Exec, pure,
  ◌>>=◌,
}
use navin_engine.Prelude.Text.{concat, trim_end, is_blank}
use navin_engine.System.{System, Output, attempt}
use navin_engine.System.Path.{FilePath}

abbrev pub max_bytes : ℕ
max_bytes = 60 * 1024

-- The loop that steps back to a character boundary.
floor_boundary : String → ℕ → ℕ
floor_boundary diff zero = zero
floor_boundary diff (suc cut) =
    let below = floor_boundary diff cut in
    if is_char_boundary diff (suc cut) then suc cut else below

abbrev before_break : Char → Option String → Option String
before_break c (some keep) = some (Str.◌∷◌ c keep)
before_break c none = if code c == 10 then some Str.[] else none

-- `rsplit_once('\n')`, the part in front.
before_last_line : String → Option String
before_last_line Str.[] = none
before_last_line (Str.◌∷◌ c s) = before_break c (before_last_line s)

abbrev keep_or : Option String → String → String
keep_or (some keep) head = keep
keep_or none head = head

unfoldable pub clamp : String → String
unfolding floor_boundary before_last_line
clamp diff =
    let head = slice diff 0 (floor_boundary diff max_bytes) in
    if leb (len diff) max_bytes
    then diff
    else concat
        (keep_or (before_last_line head) head ∷ "\n... diff truncated at 61440 bytes ..." ∷ [])

abbrev pub text_of : Option Output → Option String
text_of none = none
text_of (some output) = if output.success && output.is_utf8 then some output.stdout else none

abbrev not_empty : String → Option String
not_empty diff = if is_blank diff then none else some (clamp diff)

module _ {W : Type 0} (sys : System W) where
  open sys use {run_git}

  abbrev git_text : FilePath → List String → Exec W String (Option String)
  git_text dir args = do output ← attempt (run_git dir args); pure (text_of output)

  abbrev after_diff : Option String → Exec W String (Option String)
  after_diff none = pure none
  after_diff (some diff) = pure (not_empty (trim_end diff))

  abbrev after_add : FilePath → Option String → Exec W String (Option String)
  after_add workdir none = pure none
  after_add workdir (some _) = do
    diff ← git_text workdir ("diff" ∷ "--cached" ∷ "--no-color" ∷ "--find-renames" ∷ [])
    after_diff diff

  -- It never fails: the result is always `ok`.
  unfoldable pub capture : FilePath → Exec W String (Option String)
  capture workdir = do added ← git_text workdir ("add" ∷ "-A" ∷ []); after_add workdir added
