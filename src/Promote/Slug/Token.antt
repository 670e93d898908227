-- ===== src/Promote/Slug/Token.antt =====
-- src/promote/engine.rs, `sanitize`: whatever the finding, the token is safe in a branch name.
use Prim.Native.Char.{Char, code}
use Prim.Native.String as Str
use Prim.Native.String.{String}
use navin_engine.Prelude.{
  ℕ, zero, suc, ◌≤◌, ◌<◌, ◌≡◌, refl, arith, Bool, true, false, ◌&&◌, ◌||◌, ◌==◌, if◌then◌else◌,
}
use navin_engine.Prelude.Text.{is_blank}
use navin_engine.Promote.Slug.{
  is_alphanumeric, is_dash, dash, mapped, has_double, replace_double, count, collapse,
  trim_start_dashes, trim_end_dashes, sanitize,
}

abbrev is_safe : Char → Bool
is_safe c = is_alphanumeric c || is_dash c || code c == b'_'

-- Letters, digits, dashes and underscores only.
abbrev pub all_safe : String → Bool
all_safe Str.[] = true
all_safe (Str.◌∷◌ c s) = is_safe c && all_safe s

abbrev pub starts_with_dash : String → Bool
starts_with_dash Str.[] = false
starts_with_dash (Str.◌∷◌ c s) = is_dash c

abbrev pub ends_with_dash : String → Bool
ends_with_dash Str.[] = false
ends_with_dash (Str.◌∷◌ c Str.[]) = is_dash c
ends_with_dash (Str.◌∷◌ c (Str.◌∷◌ d s)) = ends_with_dash (Str.◌∷◌ d s)

both_true : (a b : Bool) → a ≡ true → b ≡ true → (a && b) ≡ true
both_true a b p q = ground arith

kept-safe : (c : Char) (b : Bool) → is_safe c ≡ b → is_safe (if b then c else dash) ≡ true
kept-safe c true e = e
kept-safe c false e = refl

mapped-safe : (s : String) → all_safe (mapped s) ≡ true
unfolding mapped
mapped-safe Str.[] = refl
mapped-safe (Str.◌∷◌ c s) =
    both_true (is_safe (if is_safe c then c else dash)) (all_safe (mapped s))
      (kept-safe c (is_safe c) refl) (mapped-safe s)

has_double-cons :
    (c : Char) (s : String)
    → has_double (Str.◌∷◌ c s) ≡ (is_dash c && starts_with_dash s || has_double s)
unfolding has_double
has_double-cons c Str.[] = ground arith
has_double-cons c (Str.◌∷◌ d s) = refl

replace_double-safe : (s : String) → all_safe s ≡ true → all_safe (replace_double s) ≡ true
unfolding replace_double
replace_double-safe Str.[] h = h
replace_double-safe (Str.◌∷◌ c Str.[]) h = h
replace_double-safe (Str.◌∷◌ c (Str.◌∷◌ d s)) h =
    let both = replace_double-safe s in let one = replace_double-safe (Str.◌∷◌ d s) in ground arith

count-replace_double_le : (s : String) → count (replace_double s) ≤ count s
unfolding replace_double
count-replace_double_le Str.[] = ground arith
count-replace_double_le (Str.◌∷◌ c Str.[]) = ground arith
count-replace_double_le (Str.◌∷◌ c (Str.◌∷◌ d s)) =
    let both = count-replace_double_le s in
    let one = count-replace_double_le (Str.◌∷◌ d s) in ground arith

count-replace_double_lt : (s : String) → has_double s ≡ true → count (replace_double s) < count s
unfolding replace_double has_double
count-replace_double_lt Str.[] h = cc
count-replace_double_lt (Str.◌∷◌ c Str.[]) h = cc
count-replace_double_lt (Str.◌∷◌ c (Str.◌∷◌ d s)) h =
    let both = count-replace_double_le s in
    let one = count-replace_double_lt (Str.◌∷◌ d s) in ground arith

collapse-safe : (fuel : ℕ) (s : String) → all_safe s ≡ true → all_safe (collapse fuel s) ≡ true
unfolding collapse
collapse-safe zero s h = h
collapse-safe (suc fuel) s h =
    let ih = collapse-safe fuel (replace_double s) (replace_double-safe s h) in ground arith

-- A round for each character is enough.
collapse-single : (fuel : ℕ) (s : String) → count s ≤ fuel → has_double (collapse fuel s) ≡ false
unfolding collapse has_double
collapse-single zero Str.[] h = refl
collapse-single zero (Str.◌∷◌ c s) h = absurd (ground arith)
collapse-single (suc fuel) s h =
    let ih = collapse-single fuel (replace_double s) in
    let shorter = count-replace_double_lt s in ground arith

trim_start-safe : (s : String) → all_safe s ≡ true → all_safe (trim_start_dashes s) ≡ true
unfolding trim_start_dashes
trim_start-safe Str.[] h = h
trim_start-safe (Str.◌∷◌ c s) h = let ih = trim_start-safe s in ground arith

trim_start-single : (s : String) → has_double s ≡ false → has_double (trim_start_dashes s) ≡ false
unfolding trim_start_dashes
trim_start-single Str.[] h = h
trim_start-single (Str.◌∷◌ c s) h =
    let ih = trim_start-single s in ground (arith, has_double-cons c s)

trim_start-starts : (s : String) → starts_with_dash (trim_start_dashes s) ≡ false
unfolding trim_start_dashes
trim_start-starts Str.[] = refl
trim_start-starts (Str.◌∷◌ c s) = let ih = trim_start-starts s in ground arith

trim_end-safe : (s : String) → all_safe s ≡ true → all_safe (trim_end_dashes s) ≡ true
unfolding trim_end_dashes
trim_end-safe Str.[] h = h
trim_end-safe (Str.◌∷◌ c s) h = let ih = trim_end-safe s in ground arith

trim_end-starts :
    (s : String) → starts_with_dash s ≡ false → starts_with_dash (trim_end_dashes s) ≡ false
unfolding trim_end_dashes
trim_end-starts Str.[] h = h
trim_end-starts (Str.◌∷◌ c s) h = ground arith

trim_end-single : (s : String) → has_double s ≡ false → has_double (trim_end_dashes s) ≡ false
unfolding trim_end_dashes has_double
trim_end-single Str.[] h = h
trim_end-single (Str.◌∷◌ c s) h =
    let ih = trim_end-single s in
    let starts = trim_end-starts s in
    ground (arith, has_double-cons c s, has_double-cons c (trim_end_dashes s))

ends-cons :
    (c : Char) (s : String) → is_blank s ≡ false → ends_with_dash (Str.◌∷◌ c s) ≡ ends_with_dash s
ends-cons c Str.[] h = cc
ends-cons c (Str.◌∷◌ d s) h = refl

ends-single : (c : Char) (s : String) → is_blank s ≡ true → ends_with_dash (Str.◌∷◌ c s) ≡ is_dash c
ends-single c Str.[] h = refl
ends-single c (Str.◌∷◌ d s) h = cc

trim_end-ends : (s : String) → ends_with_dash (trim_end_dashes s) ≡ false
unfolding trim_end_dashes
trim_end-ends Str.[] = refl
trim_end-ends (Str.◌∷◌ c s) =
    let ih = trim_end-ends s in
    ground (arith, ends-cons c (trim_end_dashes s), ends-single c (trim_end_dashes s))

-- Whatever the finding is called, its token holds letters, digits, dashes and underscores only,
-- no two dashes in a row, and no dash at either end: the rounds given are enough.
pub sanitize-safe :
    (finding : String)
    → (all_safe (sanitize finding) ≡ true)
      × (has_double (sanitize finding) ≡ false)
      × (starts_with_dash (sanitize finding) ≡ false)
      × (ends_with_dash (sanitize finding) ≡ false)
unfolding sanitize
sanitize-safe finding =
    let out = mapped finding in
    let single = collapse-single (count out) out (omega arith) in
    let safe = collapse-safe (count out) out (mapped-safe finding) in
    let flat = collapse (count out) out in
    (
      trim_end-safe (trim_start_dashes flat) (trim_start-safe flat safe),
      trim_end-single (trim_start_dashes flat) (trim_start-single flat single),
      trim_end-starts (trim_start_dashes flat) (trim_start-starts flat),
      trim_end-ends (trim_start_dashes flat),
    )
