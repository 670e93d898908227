-- ===== src/System/Path.antt =====
-- `std::path` on Unix: a directory is the list of its names from the root, and a relative text
-- has components.
pub mod Names
use Prim.Native.Char.{Char, code}
use Prim.Native.String as Str
use Prim.Native.String.{String}
use mathlib.Core.Option
use navin_engine.Prelude.{
  Option, none, some, Bool, false, ◌||◌, List, [], ◌∷◌, ◌==◌, str_eq, if◌then◌else◌,
}
use navin_engine.Prelude.Text.{join}

abbrev pub FilePath : Type 0
FilePath = List String

-- `display()`
abbrev pub display : FilePath → String
display p = Str.◌++◌ "/" (join "/" p)

pub data Component : Type 0 where
  root_dir cur_dir parent_dir : Component
  normal : String → Component

-- The parts of a text between its slashes; there is always one.
cons_char : Char → List String → List String
cons_char c [] = (Str.◌∷◌ c Str.[]) ∷ []
cons_char c (s ∷ ss) = (Str.◌∷◌ c s) ∷ ss

unfoldable pub split_slash : String → List String
unfolding cons_char
split_slash Str.[] = "" ∷ []
split_slash (Str.◌∷◌ c s) =
    let rest = split_slash s in if code c == b'/' then "" ∷ rest else cons_char c rest

-- Empty parts and `.` parts vanish, except a `.` at the start.
named : List String → List Component
named [] = []
named (s ∷ ss) =
    let rest = named ss in
    if str_eq s "" || str_eq s "."
    then rest
    else (if str_eq s ".." then parent_dir else normal s) ∷ rest

leading : List String → List Component
unfolding named
leading [] = []
leading (s ∷ ss) = if str_eq s "." then cur_dir ∷ named ss else named (s ∷ ss)

unfoldable pub is_absolute : String → Bool
is_absolute Str.[] = false
is_absolute (Str.◌∷◌ c s) = code c == b'/'

-- `Path::components`
unfoldable pub components : String → List Component
unfolding split_slash named leading
components rel =
    let parts = split_slash rel in if is_absolute rel then root_dir ∷ named parts else leading parts

-- `Path::parent`
unfoldable pub parent : FilePath → Option FilePath
parent [] = none
parent (s ∷ []) = some []
parent (s ∷ t ∷ ss) = Option.map (λ rest. s ∷ rest) (parent (t ∷ ss))
