-- ===== src/Verify/Crawl/Capped.antt =====
-- src/verify/differential.rs: the vectors that are replayed.
use Prim.Native.Char.{code}
use Prim.Native.String as Str
use navin_engine.Prelude.{
  ◌≢◌, ℕ, ◌≤◌, ◌<◌, max, String, ◌≡◌, refl, arith, Bool, true, false, Option, none, some, List, [],
  ◌∷◌, ◌++◌, length, length-append, leb, leb-false→lt, contains, Distinct, Distinct-snoc, All,
  All-append, Bool-cases, inl, inr,
}
use navin_engine.Prelude.Patterns.{split_once, strip_prefix}
use navin_engine.Baseline.{push_new}
use navin_engine.Verify.Crawl.{
  Answer, is_same_site, link_of, collect_link, collect, discover_more, discover_vectors, crawl,
}

-- A path of the same site: it starts with one `/`, and not with two.
abbrev pub OnSite : String → Type 0
OnSite Str.[] = ⊥
OnSite (Str.◌∷◌ c Str.[]) = code c ≡ b'/'
OnSite (Str.◌∷◌ c (Str.◌∷◌ d s)) = (code c ≡ b'/') × (code d ≢ b'/')

is_same_site-OnSite : (link : String) → is_same_site link ≡ true → OnSite link
unfolding strip_prefix
is_same_site-OnSite Str.[] h = absurd (ground (arith, h))
is_same_site-OnSite (Str.◌∷◌ c Str.[]) h = ground (arith, h)
is_same_site-OnSite (Str.◌∷◌ c (Str.◌∷◌ d s)) h = (ground (arith, h), λ e. ground (arith, h, e))

-- The base path comes first; the rest are paths of the same site; none stands twice, and there
-- are no more of them than asked for, unless that is none at all.
pub record Vectors (base_path : String) (bound : ℕ) (vectors : List String) : Type 0 where
  pub first : (links : List String) × (vectors ≡ base_path ∷ links) × All OnSite links
  pub distinct : Distinct vectors
  pub capped : length vectors ≤ max 1 bound

module _ (base_path : String) (bound : ℕ) where
  snoc-Vectors :
      (vs : List String) (link : String)
      → is_same_site link ≡ true
      → contains link vs ≡ false
      → length vs < bound
      → Vectors base_path bound vs
      → Vectors base_path bound (vs ++ link ∷ [])
  snoc-Vectors vs link same fresh room v =
      let (links, e, all) = v.first in
      record {
        first = (
          links ++ link ∷ [],
          rw e refl,
          All-append OnSite links (link ∷ []) all (is_same_site-OnSite link same, tt),
        );
        distinct = Distinct-snoc vs link fresh v.distinct;
        capped = omega (arith, length-append vs (link ∷ []), room);
      }

  push-Vectors :
      (vs : List String) (link : String)
      → is_same_site link ≡ true
      → length vs < bound
      → Vectors base_path bound vs
      → Vectors base_path bound (push_new vs link)
  push-Vectors vs link same room v = elim (Bool-cases (contains link vs)) [
    | inl h ↦ rw h v
    | inr h ↦ rw h (snoc-Vectors vs link same h room v)
  ]

  -- A new link is kept, and the loop goes on while there is room.
  grown-Vectors :
      (grown : List String) (further : List String → List String)
      → ((ws : List String)
          → length ws < bound
          → Vectors base_path bound ws
          → Vectors base_path bound (further ws))
      → Vectors base_path bound grown
      → Vectors base_path bound
          (elim (leb bound (length grown)) [ true ↦ grown | false ↦ further grown ])
  grown-Vectors grown further goes_on v = elim (Bool-cases (leb bound (length grown))) [
    | inl h ↦ rw h v
    | inr h ↦ rw h (goes_on grown (leb-false→lt bound (length grown) h) v)
  ]

  link-Vectors :
      (further : List String → List String)
      → ((ws : List String)
          → length ws < bound
          → Vectors base_path bound ws
          → Vectors base_path bound (further ws))
      → (vs : List String) (chunk : Option (String × String)) → length vs < bound
      → Vectors base_path bound vs
      → Vectors base_path bound (collect_link bound vs further (link_of chunk))
  link-Vectors further goes_on vs none room v = goes_on vs room v
  link-Vectors further goes_on vs (some (link, rest)) room v =
      elim (Bool-cases (is_same_site link)) [
        | inl h ↦
            rw h (grown-Vectors (push_new vs link) further goes_on (push-Vectors vs link h room v))
        | inr h ↦ rw h (goes_on vs room v)
      ]

  collect-Vectors :
      (chunks vs : List String)
      → length vs < bound
      → Vectors base_path bound vs
      → Vectors base_path bound (collect bound chunks vs)
  unfolding collect
  collect-Vectors [] vs room v = v
  collect-Vectors (chunk ∷ chunks) vs room v =
      link-Vectors (collect bound chunks) (collect-Vectors chunks) vs (split_once "\"" chunk) room v

  max-one : (n : ℕ) → 1 ≤ max 1 n
  max-one n = ground arith

  base-Vectors : Vectors base_path bound (base_path ∷ [])
  base-Vectors = record { first = ([], refl, tt); distinct = (refl, tt); capped = max-one bound }

  crawl-Vectors :
      (answer : Option Answer)
      → 1 < bound
      → Vectors base_path bound (crawl bound (base_path ∷ []) answer)
  crawl-Vectors none room = base-Vectors
  crawl-Vectors (some answer) room = collect-Vectors _ (base_path ∷ []) room base-Vectors

  discover_more-Vectors :
      {W : Type 0} (fetch : String → ℕ → String → W → Option Answer × W) (host : String) (port : ℕ)
      (w : W) (b : Bool)
      → leb bound 1 ≡ b
      → Vectors base_path bound ((discover_more fetch host port base_path bound w b).0)
  discover_more-Vectors fetch host port w true h = base-Vectors
  discover_more-Vectors fetch host port w false h =
      crawl-Vectors ((fetch host port base_path w).0) (leb-false→lt bound 1 h)

-- Whatever the service answers, the crawl asks for at most `bound` vectors (one, when `bound`
-- is 0), starting with the base path; the others are paths of the same site (they start with
-- one `/`, not two), and no path is asked for twice.
pub discover_vectors-Vectors :
    {W : Type 0} (fetch : String → ℕ → String → W → Option Answer × W) (host : String) (port : ℕ)
    (base_path : String) (bound : ℕ) (w : W)
    → Vectors base_path bound ((discover_vectors fetch host port base_path bound w).0)
unfolding discover_vectors
discover_vectors-Vectors fetch host port base_path bound w =
    discover_more-Vectors base_path bound fetch host port w (leb bound 1) refl
