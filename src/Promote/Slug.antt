-- ===== src/Promote/Slug.antt =====
-- src/promote/engine.rs, `sanitize`: the part of a branch name and of an id that a finding gives.
pub mod Token
use Prim.Native.Char.{Char, code}
use Prim.Native.String as Str
use Prim.Native.String.{String}
use navin_engine.Prelude.{ℕ, zero, suc, Bool, false, ◌&&◌, ◌||◌, ◌==◌, leb, if◌then◌else◌}
use navin_engine.Prelude.Text.{is_blank}

abbrev pub is_alphanumeric : Char → Bool
is_alphanumeric ch =
    let c = code ch in
    leb b'0' c && leb c b'9' || leb b'A' c && leb c b'Z' || leb b'a' c && leb c b'z'

abbrev pub is_dash : Char → Bool
is_dash ch = code ch == b'-'

abbrev dash : Char
dash = "-"

-- The `map` over the characters.
unfoldable pub mapped : String → String
mapped Str.[] = Str.[]
mapped (Str.◌∷◌ c s) =
    Str.◌∷◌ (if is_alphanumeric c || is_dash c || code c == b'_' then c else dash) (mapped s)

-- `contains("--")`
unfoldable pub has_double : String → Bool
has_double Str.[] = false
has_double (Str.◌∷◌ c Str.[]) = false
has_double (Str.◌∷◌ c (Str.◌∷◌ d s)) = is_dash c && is_dash d || has_double (Str.◌∷◌ d s)

-- `replace("--", "-")`: from the left, without overlaps.
unfoldable pub replace_double : String → String
replace_double Str.[] = Str.[]
replace_double (Str.◌∷◌ c Str.[]) = Str.◌∷◌ c Str.[]
replace_double (Str.◌∷◌ c (Str.◌∷◌ d s)) =
    let both = replace_double s in
    let one = replace_double (Str.◌∷◌ d s) in
    if is_dash c && is_dash d then Str.◌∷◌ dash both else Str.◌∷◌ c one

-- `chars().count()`
abbrev pub count : String → ℕ
count Str.[] = 0
count (Str.◌∷◌ c s) = suc (count s)

-- The `while`; each round takes at least one character away.
unfoldable pub collapse : ℕ → String → String
unfolding has_double replace_double
collapse zero s = s
collapse (suc fuel) s =
    let rest = collapse fuel (replace_double s) in if has_double s then rest else s

unfoldable pub trim_start_dashes : String → String
trim_start_dashes Str.[] = Str.[]
trim_start_dashes (Str.◌∷◌ c s) =
    let rest = trim_start_dashes s in if is_dash c then rest else Str.◌∷◌ c s

unfoldable pub trim_end_dashes : String → String
trim_end_dashes Str.[] = Str.[]
trim_end_dashes (Str.◌∷◌ c s) =
    let rest = trim_end_dashes s in if is_dash c && is_blank rest then Str.[] else Str.◌∷◌ c rest

unfoldable pub sanitize : String → String
unfolding mapped collapse trim_start_dashes trim_end_dashes
sanitize finding =
    let out = mapped finding in trim_end_dashes (trim_start_dashes (collapse (count out) out))
