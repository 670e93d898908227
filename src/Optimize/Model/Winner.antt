-- ===== src/Optimize/Model/Winner.antt =====
-- src/optimize/model.rs, `select_winner`: the winner is the best of those that may win.
use mathlib.Core.Path.{subst}
use navin_engine.Prelude.{
  ℕ, zero, suc, ◌+◌, ◌≡◌, refl, sym, ◌∙◌, ◌≢◌, ◌⊎◌, inl, inr, arith, Bool, true, false, Option,
  none, some, List, [], ◌∷◌, get_elem?, Bool-cases,
}
use navin_engine.Prelude.Reals.{F64, StrictOrder}
use navin_engine.Optimize.Model.{
  VariantOutcome, is_noise, index_of, beats, with_gain, consider, select_from, select_winner,
}

module _ (fl : F64) where
  open fl use {Carrier, lt}

  -- The variant may win with the gain `g`: it is eligible, its gain was measured, reaches the
  -- floor, and is not known to be noise.
  pub record Contends (min_gain : Carrier) (v : VariantOutcome Carrier) (g : Carrier) : Type 0 where
    pub eligible : v.eligible ≡ true
    pub gain : v.gain ≡ some g
    pub enough : lt g min_gain ≡ false
    pub clear : v.significance ≢ some false

  -- The gain `g` is not below any gain that contends in the list.
  abbrev pub Tops : Carrier → List (VariantOutcome Carrier) → Carrier → Type 0
  Tops min_gain vs g =
      (j : ℕ) (v : VariantOutcome Carrier) (g' : Carrier)
      → get_elem? vs j ≡ some v
      → Contends min_gain v g'
      → lt g g' ≡ false

  -- What a choice of the winner promises.
  abbrev pub Best : Carrier → List (VariantOutcome Carrier) → Option ℕ → Type 0
  Best min_gain vs (some i) =
      (v : VariantOutcome Carrier) × (g : Carrier) × (get_elem? vs i ≡ some v)
      × Contends min_gain v g
      × Tops min_gain vs g
  Best min_gain vs none =
      (j : ℕ) (v : VariantOutcome Carrier) (g : Carrier)
      → get_elem? vs j ≡ some v
      → ¬ Contends min_gain v g

  -- What the rest of the loop makes of the best so far.
  abbrev Improves : Option (ℕ × Carrier) → Option (ℕ × Carrier) → Type 0
  Improves none result = Unit
  Improves (some (i, b)) result =
      (j : ℕ) × (g : Carrier) × (result ≡ some (j, g)) × ((g ≡ b) ⊎ (lt b g ≡ true))

  module _ (order : StrictOrder fl) (min_gain : Carrier) where
    Improves-trans : (a b c : Option (ℕ × Carrier)) → Improves a b → Improves b c → Improves a c
    Improves-trans none b c p q = tt
    Improves-trans (some (i, x)) none c (j, y, e, o) q = cc
    Improves-trans (some (i, x)) (some (k, z)) c (j, y, e, o) (l, u, e', o') =
        (l, u, e', ground (arith, e, o, o', order.lt_trans x z u))

    -- One turn of the loop: the best so far stays, and is not below the variant's gain; or
    -- the variant takes its place.
    abbrev Turn : ℕ → VariantOutcome Carrier → Option (ℕ × Carrier) → Option (ℕ × Carrier) → Type 0
    Turn index v best result =
        (result ≡ best)
          × ((g : Carrier)
              → Contends min_gain v g
              → (i : ℕ) × (b : Carrier) × (best ≡ some (i, b)) × (lt b g ≡ false))
        ⊎ (g : Carrier) × (result ≡ some (index, g))
          × Contends min_gain v g
          × (beats fl g best ≡ true)

    held :
        (best : Option (ℕ × Carrier)) (g : Carrier)
        → beats fl g best ≡ false
        → (i : ℕ) × (b : Carrier) × (best ≡ some (i, b)) × (lt b g ≡ false)
    held none g h = cc
    held (some (i, b)) g h = (i, b, refl, h)

    clear_of : (o : Option Bool) → is_noise fl o ≡ false → o ≢ some false
    clear_of none h = λ e. ground arith
    clear_of (some true) h = λ e. ground arith
    clear_of (some false) h = λ e. ground arith

    noise_of : (o : Option Bool) → is_noise fl o ≡ true → o ≡ some false
    noise_of none h = cc
    noise_of (some true) h = cc
    noise_of (some false) h = refl

    with_gain-Turn :
        (index : ℕ) (v : VariantOutcome Carrier) (o : Option Carrier) (best : Option (ℕ × Carrier))
        → v.eligible ≡ true
        → v.gain ≡ o
        → Turn index v best (with_gain fl min_gain index v o best)
    with_gain-Turn index v none best el ga = inl (refl, λ g c. ground (arith, c.gain))
    with_gain-Turn index v (some g) best el ga = elim (Bool-cases (lt g min_gain)) [
      | inl low ↦ inl (ground arith, λ g' c. ground (arith, c.gain, c.enough))
      | inr enough ↦ elim (Bool-cases (is_noise fl v.significance)) [
        | inl noisy ↦ inl (ground arith, λ g' c. absurd (c.clear (noise_of v.significance noisy)))
        | inr clear ↦ elim (Bool-cases (beats fl g best)) [
          | inl wins ↦ inr (
            g,
            ground arith,
            record {
              eligible = el;
              gain = ga;
              enough = enough;
              clear = clear_of v.significance clear;
            },
            wins,
          )
          | inr loses ↦ inl (ground arith, λ g' c. held best g' (ground (arith, c.gain, loses)))
        ]
      ]
    ]

    consider-Turn :
        (index : ℕ) (v : VariantOutcome Carrier) (best : Option (ℕ × Carrier))
        → Turn index v best (consider fl min_gain index v best)
    consider-Turn index v best = elim (Bool-cases v.eligible) [
      | inl el ↦
          subst (Turn index v best) (ground arith) (with_gain-Turn index v v.gain best el refl)
      | inr not_el ↦ inl (ground arith, λ g c. ground (arith, c.eligible))
    ]

    consider-Improves :
        (index : ℕ) (v : VariantOutcome Carrier) (best : Option (ℕ × Carrier))
        → Improves best (consider fl min_gain index v best)
    consider-Improves index v none = tt
    consider-Improves index v (some (i, b)) = elim (consider-Turn index v (some (i, b))) [
      | inl (e, c) ↦ (i, b, e, inl refl)
      | inr (g, e, c, wins) ↦ (index, g, e, inr wins)
    ]

    select_from-Improves :
        (index : ℕ) (best : Option (ℕ × Carrier)) (vs : List (VariantOutcome Carrier))
        → Improves best (select_from fl min_gain index best vs)
    select_from-Improves index none [] = tt
    select_from-Improves index (some (i, b)) [] = (i, b, refl, inl refl)
    select_from-Improves index best (v ∷ vs) =
        Improves-trans best (consider fl min_gain index v best) _ (consider-Improves index v best)
          (select_from-Improves (suc index) (consider fl min_gain index v best) vs)

    -- After the loop, the gain that leads is not below that of any variant it went through.
    abbrev Leads : Option (ℕ × Carrier) → VariantOutcome Carrier → Type 0
    Leads result v =
        (g' : Carrier)
        → Contends min_gain v g'
        → (i : ℕ) × (g : Carrier) × (result ≡ some (i, g)) × (lt g g' ≡ false)

    Leads-later :
        (v : VariantOutcome Carrier) (best result : Option (ℕ × Carrier))
        → Improves best result
        → Leads best v
        → Leads result v
    Leads-later v none result imp l =
        λ g' c. let (i, g, e, o) = l g' c in absurd (ground (arith, e))
    Leads-later v (some (i, b)) result (j, g, e, o) l = λ g' c.
        let (i', b', e', low) = l g' c in
        (j, g, e, ground (arith, e', low, o, order.lt_trans b g g'))

    consider-Leads :
        (index : ℕ) (v : VariantOutcome Carrier) (best : Option (ℕ × Carrier))
        → Leads (consider fl min_gain index v best) v
    consider-Leads index v best = elim (consider-Turn index v best) [
      | inl (e, below) ↦ λ g' c. let (i, b, eb, low) = below g' c in (i, b, e ∙ eb, low)
      | inr (g, e, mine, wins) ↦
          λ g' c. (index, g, e, ground (arith, order.lt_irrefl g, c.gain, mine.gain))
    ]

    select_from-Leads :
        (vs : List (VariantOutcome Carrier)) (index : ℕ) (best : Option (ℕ × Carrier)) (j : ℕ)
        (v : VariantOutcome Carrier)
        → get_elem? vs j ≡ some v
        → Leads (select_from fl min_gain index best vs) v
    select_from-Leads [] index best j v at = absurd (ground (arith, at))
    select_from-Leads (x ∷ xs) index best zero v at =
        let same : x ≡ v = ground (arith, at) in
        let turn = consider fl min_gain index x best in
        Leads-later v turn _ (select_from-Improves (suc index) turn xs)
          (subst (Leads turn) same (consider-Leads index x best))
    select_from-Leads (x ∷ xs) index best (suc j) v at =
        select_from-Leads xs (suc index) (consider fl min_gain index x best) j v at

    -- What leads after the loop led before it, or is the gain of a variant that contends.
    abbrev Comes : ℕ → Option (ℕ × Carrier) → List (VariantOutcome Carrier) → ℕ → Carrier → Type 0
    Comes index best vs i g =
        (best ≡ some (i, g))
        ⊎ (k : ℕ) × (v : VariantOutcome Carrier) × (i ≡ index + k)
          × (get_elem? vs k ≡ some v)
          × Contends min_gain v g

    select_from-Comes :
        (vs : List (VariantOutcome Carrier)) (index : ℕ) (best : Option (ℕ × Carrier)) (i : ℕ)
        (g : Carrier)
        → select_from fl min_gain index best vs ≡ some (i, g)
        → Comes index best vs i g
    select_from-Comes [] index best i g e = inl e
    select_from-Comes (v ∷ vs) index best i g e =
        let turn = consider fl min_gain index v best in
        elim (select_from-Comes vs (suc index) turn i g e) [
          | inl now ↦ elim (consider-Turn index v best) [
            | inl (kept, below) ↦ inl (sym kept ∙ now)
            | inr (g', e', mine, wins) ↦ inr (
              0,
              v,
              ground (arith, now, e'),
              refl,
              subst (Contends min_gain v) (ground (arith, now, e')) mine,
            )
          ]
          | inr (k, v', ei, at, c) ↦ inr (suc k, v', ground (arith, ei), at, c)
        ]

    select_from-Best :
        (vs : List (VariantOutcome Carrier)) (o : Option (ℕ × Carrier))
        → select_from fl min_gain 0 none vs ≡ o
        → Best min_gain vs (index_of fl o)
    select_from-Best vs none e = λ j v g at c.
        let (i, b, eb, low) = select_from-Leads vs 0 none j v at g c in ground (arith, eb, e)
    select_from-Best vs (some (i, g)) e = elim (select_from-Comes vs 0 none i g e) [
      | inl impossible ↦ absurd (ground (arith, impossible))
      | inr (k, v, ei, at, c) ↦ (
        v,
        g,
        subst (λ n. get_elem? vs n ≡ some v) (ground (arith, ei)) at,
        c,
        λ j v' g' at' c'.
            let (i', b, eb, low) = select_from-Leads vs 0 none j v' at' g' c' in
            ground (arith, e, eb, low),
      )
    ]

    -- `<` on floats being a strict order: the winner is the index of a variant that contends, and
    -- no variant that contends has a higher gain; and there is no winner only if none contends.
    pub select_winner-Best :
        (vs : List (VariantOutcome Carrier)) → Best min_gain vs (select_winner fl vs min_gain)
    unfolding select_winner
    select_winner-Best vs = select_from-Best vs (select_from fl min_gain 0 none vs) refl
