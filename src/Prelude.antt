-- ===== src/Prelude.antt =====
-- What every module shares: library names passed on, tests, lists, effects, texts.
mod Tests
mod Lists
mod Effects
pub mod Reals
pub mod Text
pub mod Patterns
pub use Tests.*
pub use Lists.*
unfoldable pub use Effects.*
pub use Prim.Native.Nat.{ℕ, zero, suc, ◌+◌, ◌-◌, ◌*◌, ◌/◌, ◌%◌, ◌^◌, ◌≤◌, ◌<◌, min, max}
pub use Prim.Native.String.{String}
pub use mathlib.Core.Path.{◌≡◌, refl, sym, ap, ◌∙◌}
pub use mathlib.Core.Logic.{◌≢◌, ◌↔◌, ◌⊎◌, inl, inr}
pub use mathlib.Core.Bool.{Bool, true, false, not, ◌&&◌, ◌||◌}
pub use mathlib.Core.Option.{Option, none, some}
pub use mathlib.Core.List.{List, [], ◌∷◌, ◌++◌, map}
pub use native.Mathlib.Omega.{arith}
pub use text.Mathlib.TextEquality.{eq_iff}

-- An argument of a formatted message, `F` being the type of its floats.
pub data Arg (F : Type 0) : Type 0 where
  num : ℕ → Arg F
  str : String → Arg F
  strs : List String → Arg F
  real : F → Arg F

-- A message for a human reader: the format string of the source, and its arguments. No code
-- reads a message back, so the text that they print to is not computed.
pub data Message (F : Type 0) : Type 0 where
  fmt : String → List (Arg F) → Message F

-- The formatting and parsing of Rust's standard library: `format!`, `f64`'s `Display` and
-- `FromStr`, and `to_lowercase`, which needs Unicode's tables.
pub record Formats (F : Type 0) : Type 0 where
  pub print : Message F → String
  pub show_real : F → String
  pub parse_real : String → Option F
  pub to_lowercase : String → String
