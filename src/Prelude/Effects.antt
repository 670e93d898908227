-- ===== src/Prelude/Effects.antt =====
-- Code that changes a world and may fail. What was done before the failure stays done, so the
-- world comes back beside the error too: `anyhow::Result` with `?`.
use mathlib.Core.Path.{◌≡◌, refl, subst}
use mathlib.Core.Bool.{Bool, true, false}
use native.Mathlib.Omega.{arith}
use navin_engine.Prelude.Tests.{if◌then◌else◌}

pub data Result {ℓ} (E A : Type ℓ) : Type ℓ where
  ok : A → Result E A
  err : E → Result E A

abbrev pub Exec {ℓ} : Type ℓ → Type ℓ → Type ℓ → Type ℓ
Exec W E A = W → Result E A × W

module _ {ℓ} {W E A : Type ℓ} where
  unfoldable pub pure : A → Exec W E A
  pure a w = (ok a, w)

  unfoldable pub raise : E → Exec W E A
  raise e w = (err e, w)

module _ {ℓ} {W E A B : Type ℓ} where
  abbrev pub continue : Result E A → (A → Exec W E B) → Exec W E B
  continue (ok a) f w = f a w
  continue (err e) f w = (err e, w)

  infixl 10 ◌>>=◌ ◌>>◌
  -- The operator `?`: the first error ends the function.
  unfoldable pub ◌>>=◌ : Exec W E A → (A → Exec W E B) → Exec W E B
  unfolding pure raise
  ◌>>=◌ m f w = let r = m w in continue r.0 f r.1

  abbrev pub ◌>>◌ : Exec W E A → Exec W E B → Exec W E B
  m >> n = m >>= λ _. n

-- `m` keeps `P`, whether it returns or fails.
pub record Keeps {ℓ κ} {W E A : Type ℓ} (P : W → Type κ) (m : Exec W E A) : Type (ℓ ⊔ κ) where
  pub at : (w : W) → P w → P (m w).1

-- Whenever `m` succeeds, its result satisfies `Q`.
pub record Returns {ℓ κ} {W E A : Type ℓ} (Q : A → Type κ) (m : Exec W E A) : Type (ℓ ⊔ κ) where
  pub at : (w w' : W) (a : A) → m w ≡ (ok a, w') → Q a

module _ {ℓ κ} {W E A : Type ℓ} {P : W → Type κ} where
  pub Keeps-pure : (a : A) → Keeps {E = E} P (pure a)
  unfolding pure
  Keeps-pure a = record { at = λ w h. h }

  pub Keeps-raise : (e : E) → Keeps {A = A} P (raise e)
  unfolding raise
  Keeps-raise e = record { at = λ w h. h }

  pub Keeps-if :
      (b : Bool) (m n : Exec W E A) → Keeps P m → Keeps P n → Keeps P (if b then m else n)
  Keeps-if true m n km kn = km
  Keeps-if false m n km kn = kn

module _ {ℓ κ} {W E A B : Type ℓ} {P : W → Type κ} where
  Keeps-continue :
      (r : Result E A) (f : A → Exec W E B)
      → ((a : A) → Keeps P (f a))
      → (w : W) → P w
      → P (continue r f w).1
  Keeps-continue (ok a) f kf w h = (kf a).at w h
  Keeps-continue (err e) f kf w h = h

  pub Keeps-bind :
      (m : Exec W E A) (f : A → Exec W E B)
      → Keeps P m
      → ((a : A) → Keeps P (f a))
      → Keeps P (m >>= f)
  unfolding ◌>>=◌
  Keeps-bind m f km kf = record {
    at = λ w h. let r = m w in Keeps-continue r.0 f kf r.1 (km.at w h);
  }

-- Inversion of a chain that succeeded.
module _ {ℓ} {W E A B : Type ℓ} where
  continue-eq-ok :
      (r : Result E A) (f : A → Exec W E B) {w w' : W} {b : B}
      → continue r f w ≡ (ok b, w')
      → (a : A) × (r ≡ ok a) × (f a w ≡ (ok b, w'))
  continue-eq-ok (ok a) f h = (a, refl, h)
  continue-eq-ok (err e) f h = cc

  pub >>=-eq-ok :
      (m : Exec W E A) (f : A → Exec W E B) (w : W) {w' : W} {b : B}
      → (m >>= f) w ≡ (ok b, w')
      → (a : A) × ((m w).0 ≡ ok a) × (f a (m w).1 ≡ (ok b, w'))
  unfolding ◌>>=◌
  >>=-eq-ok m f w h = continue-eq-ok (m w).0 f h

module _ {ℓ κ} {W E A : Type ℓ} {Q : A → Type κ} where
  pub Returns-pure : (a : A) → Q a → Returns {W = W} {E = E} Q (pure a)
  unfolding pure
  Returns-pure a q = record { at = λ w w' b h. subst Q (ground arith) q }

  pub Returns-raise : (e : E) → Returns {W = W} Q (raise e)
  unfolding raise
  Returns-raise e = record { at = λ w w' b h. cc }

  pub Returns-if :
      (b : Bool) (m n : Exec W E A)
      → (b ≡ true → Returns Q m)
      → (b ≡ false → Returns Q n)
      → Returns Q (if b then m else n)
  Returns-if true m n rm rn = rm refl
  Returns-if false m n rm rn = rn refl

  pub Returns-bind :
      {B : Type ℓ} (m : Exec W E B) (f : B → Exec W E A)
      → ((b : B) → Returns Q (f b))
      → Returns Q (m >>= f)
  Returns-bind m f rf = record {
    at = λ w w' a h. let (b, e, g) = >>=-eq-ok m f w h in (rf b).at (m w).1 w' a g;
  }

-- Whenever `m` succeeds, the world it leaves satisfies `P`.
pub record Reaches {ℓ κ} {W E A : Type ℓ} (P : W → Type κ) (m : Exec W E A) : Type (ℓ ⊔ κ) where
  pub at : (w w' : W) (a : A) → m w ≡ (ok a, w') → P w'

pub Reaches-bind {ℓ κ} :
    {W E A B : Type ℓ} {P : W → Type κ} (m : Exec W E B) (f : B → Exec W E A)
    → ((b : B) → Reaches P (f b))
    → Reaches P (m >>= f)
Reaches-bind m f rf = record {
  at = λ w w' a h. let (b, e, g) = >>=-eq-ok m f w h in (rf b).at (m w).1 w' a g;
}

-- A last step that leaves the world alone.
pub Reaches-pure {ℓ κ} :
    {W E A B : Type ℓ} {P : W → Type κ} (m : Exec W E B) (a : B → A)
    → Reaches P m
    → Reaches P (m >>= λ b. pure (a b))
unfolding pure
Reaches-pure m a rm = record {
  at = λ w w' x h.
      let (b, e, g) = >>=-eq-ok m (λ b. pure (a b)) w h in rm.at w w' b (ground (arith, e, g));
}

-- Steps after the first that keep what it reached.
pub Reaches-then {ℓ κ} :
    {W E A B : Type ℓ} {P : W → Type κ} (m : Exec W E B) (f : B → Exec W E A)
    → Reaches P m
    → ((b : B) → Keeps P (f b))
    → Reaches P (m >>= f)
Reaches-then {P} m f rm kf = record {
  at = λ w w' a h.
      let (b, e, g) = >>=-eq-ok m f w h in
      let reached = (kf b).at (m w).1 (rm.at w (m w).1 b (ground (arith, e))) in
      subst P (ground (arith, g)) reached;
}

-- What the first part returns may be used in what the rest reaches.
pub Reaches-bind-of {ℓ κ μ} :
    {W E A B : Type ℓ} (Q : B → Type μ) {P : W → Type κ} (m : Exec W E B) (f : B → Exec W E A)
    → Returns Q m
    → ((b : B) → Q b → Reaches P (f b))
    → Reaches P (m >>= f)
Reaches-bind-of Q m f rm rf = record {
  at = λ w w' a h.
      let (b, e, g) = >>=-eq-ok m f w h in
      (rf b (rm.at w (m w).1 b (ground (arith, e)))).at (m w).1 w' a g;
}

-- What the first part returns may be used in the rest.
pub Returns-bind-of {ℓ κ μ} :
    {W E A B : Type ℓ} (P : B → Type μ) {Q : A → Type κ} (m : Exec W E B) (f : B → Exec W E A)
    → Returns P m
    → ((b : B) → P b → Returns Q (f b))
    → Returns Q (m >>= f)
Returns-bind-of P m f rm rf = record {
  at = λ w w' a h.
      let (b, e, g) = >>=-eq-ok m f w h in
      (rf b (rm.at w (m w).1 b (ground (arith, e)))).at (m w).1 w' a g;
}

-- Whenever `m` succeeds, its result and the world it leaves satisfy `P`.
pub record Leaves {ℓ κ} {W E A : Type ℓ} (P : A → W → Type κ) (m : Exec W E A) : Type (ℓ ⊔ κ) where
  pub at : (w w' : W) (a : A) → m w ≡ (ok a, w') → P a w'

module _ {ℓ κ} {W E A : Type ℓ} {P : A → W → Type κ} where
  pub Leaves-raise : (e : E) → Leaves P (raise e)
  unfolding raise
  Leaves-raise e = record { at = λ w w' a h. cc }

  pub Leaves-bind :
      {B : Type ℓ} (m : Exec W E B) (f : B → Exec W E A)
      → ((b : B) → Leaves P (f b))
      → Leaves P (m >>= f)
  Leaves-bind m f rf = record {
    at = λ w w' a h. let (b, e, g) = >>=-eq-ok m f w h in (rf b).at (m w).1 w' a g;
  }

-- `m` returned `a` in some run.
pub record Ran {ℓ} {W E A : Type ℓ} (m : Exec W E A) (a : A) : Type ℓ where
  pub before : W
  pub after : W
  pub run : m before ≡ (ok a, after)

pub Returns-Ran {ℓ} : {W E A : Type ℓ} (m : Exec W E A) → Returns (Ran m) m
Returns-Ran m = record { at = λ w w' a h. record { before = w; after = w'; run = h } }

-- A weaker condition on what is returned.
pub Returns-map {ℓ κ μ} :
    {W E A : Type ℓ} {P : A → Type μ} {Q : A → Type κ} {m : Exec W E A}
    → ((a : A) → P a → Q a)
    → Returns P m
    → Returns Q m
Returns-map f rm = record { at = λ w w' a h. f a (rm.at w w' a h) }

pub ruleset keeps_rules = (Keeps-pure, Keeps-raise, Keeps-if, Keeps-bind)

pub ruleset returns_rules = (Returns-pure, Returns-raise, Returns-if, Returns-bind)
