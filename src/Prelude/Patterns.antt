-- ===== src/Prelude/Patterns.antt =====
-- The methods of `str` that search for a pattern and take a text apart at it.
use Prim.Native.Nat.{ℕ, zero, suc, ◌+◌, ◌-◌, ◌*◌}
use Prim.Native.Char.{Char, code}
use Prim.Native.String.{String, [], ◌∷◌, char_at}
use mathlib.Core.Bool.{Bool, true, false, ◌&&◌}
use mathlib.Core.List.{List}
use mathlib.Core.Option.{Option, none, some}
use navin_engine.Prelude.Tests.{leb, ◌==◌, if◌then◌else◌}
use navin_engine.Prelude.Text.{is_blank}

abbrev pub is_char : ℕ → Char → Bool
is_char n c = code c == n

abbrev pub is_digit : Char → Bool
is_digit c = leb b'0' (code c) && leb (code c) b'9'

abbrev pub lower_char : Char → Char
lower_char c =
    if leb b'A' (code c) && leb (code c) b'Z'
    then char_at "abcdefghijklmnopqrstuvwxyz" (code c - b'A')
    else c

unfoldable pub to_ascii_lowercase : String → String
to_ascii_lowercase [] = []
to_ascii_lowercase (c ∷ s) = lower_char c ∷ to_ascii_lowercase s

-- `strip_prefix`, the pattern first
unfoldable pub strip_prefix : String → String → Option String
strip_prefix [] s = some s
strip_prefix (c ∷ p) [] = none
strip_prefix (c ∷ p) (d ∷ s) = if code c == code d then strip_prefix p s else none

abbrev pub is_found {ℓ} : {A : Type ℓ} → Option A → Bool
is_found none = false
is_found (some a) = true

abbrev pub has_prefix : String → String → Bool
has_prefix p s = is_found (strip_prefix p s)

abbrev pub or_further : Char → Option String → Option (String × String) → Option (String × String)
or_further c (some after) further = some ([], after)
or_further c none none = none
or_further c none (some (before, after)) = some (c ∷ before, after)

-- `split_once`, the pattern first
unfoldable pub split_once : String → String → Option (String × String)
unfolding strip_prefix
split_once p [] = elim (strip_prefix p []) [ none ↦ none | some after ↦ some ([], after) ]
split_once p (c ∷ s) = or_further c (strip_prefix p (c ∷ s)) (split_once p s)

-- `contains`, the pattern first
abbrev pub has_text : String → String → Bool
has_text p s = is_found (split_once p s)

abbrev further_back : ℕ → Char → String → Option (String × String) → Option (String × String)
further_back n c s (some (before, after)) = some (c ∷ before, after)
further_back n c s none = if is_char n c then some ([], s) else none

-- `rsplit_once` at a character
unfoldable pub rsplit_once : ℕ → String → Option (String × String)
rsplit_once n [] = none
rsplit_once n (c ∷ s) = further_back n c s (rsplit_once n s)

-- `take_while`
unfoldable pub take_while : (Char → Bool) → String → String
take_while p [] = []
take_while p (c ∷ s) = let rest = take_while p s in if p c then c ∷ rest else []

-- `trim_end_matches` of a character
unfoldable pub trim_end_char : ℕ → String → String
trim_end_char n [] = []
trim_end_char n (c ∷ s) =
    let rest = trim_end_char n s in if is_char n c && is_blank rest then [] else c ∷ rest

unfoldable pub trim_start_char : ℕ → String → String
trim_start_char n [] = []
trim_start_char n (c ∷ s) = let rest = trim_start_char n s in if is_char n c then rest else c ∷ s

abbrev cons_line : Char → List String → List String
cons_line c List.[] = List.◌∷◌ (c ∷ []) List.[]
cons_line c (List.◌∷◌ l ls) = List.◌∷◌ (c ∷ l) ls

abbrev starts_line : String → Bool
starts_line [] = false
starts_line (c ∷ s) = is_char 10 c

-- A carriage return in front of a line break goes with it.
abbrev add_line : Char → String → List String → List String
add_line c s rest =
    if is_char 10 c
    then List.◌∷◌ [] rest
    else if is_char 13 c && starts_line s
    then rest
    else cons_line c rest

-- `lines`: a line break at the end begins no line.
unfoldable pub lines : String → List String
lines [] = List.[]
lines (c ∷ s) = add_line c s (lines s)

-- A decimal number, read from the left; `none` at the first character that is no digit.
unfoldable pub digits_from : ℕ → String → Option ℕ
digits_from n [] = some n
digits_from n (c ∷ s) = if is_digit c then digits_from (n * 10 + (code c - b'0')) s else none

abbrev at_most : ℕ → Option ℕ → Option ℕ
at_most bound none = none
at_most bound (some n) = if leb n bound then some n else none

-- `parse` of an unsigned integer up to `bound`: one sign `+`, at least one digit.
unfoldable pub parse_unsigned : ℕ → String → Option ℕ
unfolding digits_from
parse_unsigned bound [] = none
parse_unsigned bound (c ∷ []) =
    if is_char b'+' c then none else at_most bound (digits_from 0 (c ∷ []))
parse_unsigned bound (c ∷ d ∷ s) =
    if is_char b'+' c
    then at_most bound (digits_from 0 (d ∷ s))
    else at_most bound (digits_from 0 (c ∷ d ∷ s))

-- `chars().take(n)`
unfoldable pub take_chars : ℕ → String → String
take_chars zero s = []
take_chars (suc n) [] = []
take_chars (suc n) (c ∷ s) = c ∷ take_chars n s
