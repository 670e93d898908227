-- ===== src/Baseline.antt =====
-- src/baseline/latency.rs: what a latency probe sends, and how its samples are read.
pub mod Probes
use navin_engine.Prelude.{
  ℕ, suc, ◌-◌, ◌*◌, min, max, String, Bool, true, false, Option, none, some, List, [], ◌∷◌, ◌++◌,
  map, contains, is_empty, length, get_elem?, str_eq, if◌then◌else◌,
}
use Prim.Native.Char.{code}
use Prim.Native.String as Str
use navin_engine.Prelude.{◌==◌}
use navin_engine.Prelude.Text.{concat, is_blank, trim}
use navin_engine.Prelude.Reals.{F64}
use navin_engine.Policy.{TargetSection}

pub record ProbeSpec : Type 0 where
  pub method : String
  pub path : String
  pub headers : List (String × String)
  pub body : String

-- `starts_with('/')`
abbrev is_rooted : String → Bool
is_rooted Str.[] = false
is_rooted (Str.◌∷◌ c s) = code c == b'/'

abbrev pub normalize : String → String
normalize extra = if is_rooted extra then extra else concat ("/" ∷ extra ∷ [])

-- `if !paths.contains(&path) { paths.push(path) }`
abbrev pub push_new : List String → String → List String
push_new paths path = if contains path paths then paths else paths ++ path ∷ []

abbrev pub add_path : List String → String → List String
add_path paths extra = if is_blank extra then paths else push_new paths (normalize extra)

-- The loop over the configured paths.
unfoldable pub add_paths : List String → List String → List String
add_paths paths [] = paths
add_paths paths (extra ∷ extras) = add_paths (add_path paths (trim extra)) extras

abbrev pub first_path : String → String
first_path base_path = if is_blank base_path then "/" else base_path

abbrev pub spec_of : TargetSection → String → ProbeSpec
spec_of target path = record {
  method = target.probe_method;
  path = path;
  headers = target.probe_headers;
  body = target.probe_body;
}

unfoldable pub specs_for : TargetSection → String → List ProbeSpec
specs_for target base_path =
    map (spec_of target) (add_paths (first_path base_path ∷ []) target.probe_paths)

module _ (fl : F64) where
  open fl use {Carrier, mul, of_ℕ, ceil, to_ℕ}

  abbrev pub sample_or : Carrier → Option Carrier → Carrier
  sample_or d none = d
  sample_or d (some x) = x

  -- `rank.clamp(1, n) - 1`
  abbrev pub index_for : Carrier → ℕ → ℕ
  index_for q n = min n (max 1 (to_ℕ (ceil (mul q (of_ℕ n))))) - 1

  -- The index is always in range, so the default is never taken.
  unfoldable pub percentile : List Carrier → Carrier → Carrier
  percentile sorted q =
      if is_empty sorted
      then of_ℕ 0
      else sample_or (of_ℕ 0) (get_elem? sorted (index_for q (length sorted)))
