-- ===== src/System/Path/Names.antt =====
-- What the normal components of a relative text are: single names.
use Prim.Native.Char.{Char, code}
use Prim.Native.String as Str
use navin_engine.Prelude.{
  String, ◌≡◌, refl, Bool, false, ◌||◌, List, [], ◌∷◌, All, arith, str_eq, ◌==◌, Bool-cases, inl,
  inr, All-if,
}
use navin_engine.System.Path.{
  Component, root_dir, normal, components, split_slash, named, cons_char, leading, is_absolute,
}

abbrev pub has_slash : String → Bool
has_slash Str.[] = false
has_slash (Str.◌∷◌ c s) = code c == b'/' || has_slash s

-- A name that stays where it is pushed: not empty, not `.` or `..`, and one component.
pub record IsName (s : String) : Type 0 where
  pub not_empty : str_eq s "" ≡ false
  pub not_dot : str_eq s "." ≡ false
  pub not_dots : str_eq s ".." ≡ false
  pub no_slash : has_slash s ≡ false

abbrev NoSlash : String → Type 0
NoSlash s = has_slash s ≡ false

abbrev pub IsSafe : Component → Type 0
IsSafe (normal s) = IsName s
IsSafe _ = Unit

cons_char-All :
    (c : Char) (ss : List String)
    → (code c == b'/') ≡ false
    → All NoSlash ss
    → All NoSlash (cons_char c ss)
unfolding cons_char
cons_char-All c [] h a = (ground arith, tt)
cons_char-All c (s ∷ ss) h a = (ground arith, a.1)

split_slash-All : (s : String) → All NoSlash (split_slash s)
unfolding split_slash
split_slash-All Str.[] = (refl, tt)
split_slash-All (Str.◌∷◌ c s) = elim (Bool-cases (code c == b'/')) [
  | inl p ↦ rw p (refl, split_slash-All s)
  | inr p ↦ rw p (cons_char-All c (split_slash s) p (split_slash-All s))
]

named-All : (ss : List String) → All NoSlash ss → All IsSafe (named ss)
unfolding named
named-All [] a = tt
named-All (s ∷ ss) a = elim (Bool-cases (str_eq s "" || str_eq s ".")) [
  | inl p ↦ rw p (named-All ss a.1)
  | inr p ↦ elim (Bool-cases (str_eq s "..")) [
    | inl q ↦ rw (p, q) (tt, named-All ss a.1)
    | inr q ↦
        rw (p, q)
          (
            record {
              not_empty = ground arith;
              not_dot = ground arith;
              not_dots = q;
              no_slash = a.0;
            },
            named-All ss a.1,
          )
  ]
]

leading-All : (ss : List String) → All NoSlash ss → All IsSafe (leading ss)
unfolding leading
leading-All [] a = tt
leading-All (s ∷ ss) a =
    All-if IsSafe (str_eq s ".") _ _ (tt, named-All ss a.1) (named-All (s ∷ ss) a)

-- A component of a text is one name, or is not `normal`.
pub components-All : (rel : String) → All IsSafe (components rel)
unfolding components
components-All rel =
    let parts = split_slash-All rel in
    All-if IsSafe (is_absolute rel) (root_dir ∷ named (split_slash rel)) (leading (split_slash rel))
      (tt, named-All (split_slash rel) parts) (leading-All (split_slash rel) parts)
