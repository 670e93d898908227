-- ===== src/Shadow/Gone.antt =====
-- src/shadow/manager.rs and src/shadow/cleanup.rs: a shadow that was destroyed is gone.
use mathlib.Core.Path.{subst}
use navin_engine.Prelude.{
  String, ◌≡◌, refl, arith, Bool, true, false, Result, ok, err, Exec, pure, raise, ◌>>=◌, Reaches,
  Reaches-bind, Reaches-pure, if◌then◌else◌,
}
use navin_engine.System.{System, with_context, with_context-eq-ok, attempt, catch, gets}
use navin_engine.System.Path.{FilePath}
use navin_engine.Promote.Git.{is_repo}
use navin_engine.Shadow.{Shadow, remove_rest, destroy_path, release, guarded}

-- A directory that was removed without an error is not there any more.
pub record Removes {W : Type 0} (sys : System W) : Type 0 where
  pub removed :
      (p : FilePath) (w w' : W) → sys.remove_dir_all p w ≡ (ok tt, w') → sys.exists p w' ≡ false

module _ {W : Type 0} (sys : System W) (laws : Removes sys) where
  abbrev Gone : FilePath → W → Type 0
  Gone p w = sys.exists p w ≡ false

  -- Work that is done where a test of the machine holds, and not needed where it fails.
  if-Reaches :
      {A : Type 0} {P : W → Type 0} (b : Bool) (m : Exec W String A) (a : A) (w w' : W) (x : A)
      → Reaches P m
      → (b ≡ false → P w)
      → (if b then m else pure a) w ≡ (ok x, w')
      → P w'
  unfolding pure
  if-Reaches true m a w w' x rm otherwise h = rm.at w w' x h
  if-Reaches {P} false m a w w' x rm otherwise h = subst P (ground (arith, h)) (otherwise refl)

  gets-Reaches :
      {A : Type 0} {P : W → Type 0} (f : W → Bool) (m : Exec W String A) (a : A)
      → Reaches P m
      → ((w : W) → f w ≡ false → P w)
      → Reaches P (do b ← gets f; if b then m else pure a)
  unfolding gets ◌>>=◌
  gets-Reaches f m a rm otherwise = record {
    at = λ w w' x h. if-Reaches (f w) m a w w' x rm (otherwise w) h;
  }

  removed-Gone :
      (context : String) (dest : FilePath)
      → Reaches (Gone dest) (with_context context (sys.remove_dir_all dest))
  removed-Gone context dest = record {
    at = λ w w' a h.
        laws.removed dest w w' (with_context-eq-ok context (sys.remove_dir_all dest) w h);
  }

  remove_rest-Gone : (dest : FilePath) → Reaches (Gone dest) (remove_rest sys dest)
  remove_rest-Gone dest = gets-Reaches (sys.exists dest) _ tt (removed-Gone _ dest) (λ w h. h)

  destroy_path-Gone : (root dest : FilePath) → Reaches (Gone dest) (destroy_path sys root dest)
  unfolding destroy_path
  destroy_path-Gone root dest =
      gets-Reaches (sys.exists dest) _ tt
        (Reaches-bind (gets (is_repo sys root)) _
          (λ repo. Reaches-bind _ _ (λ _. remove_rest-Gone dest)))
        (λ w h. h)

  module _ {A : Type 0} (root : FilePath) where
    raise-Reaches : {P : W → Type 0} (e : String) → Reaches P (raise {A = A} e)
    unfolding raise
    raise-Reaches e = record { at = λ w w' a h. cc }

    release-Gone :
        (path : FilePath) (done : Result String A)
        → Reaches (Gone path) (release sys root path done)
    release-Gone path (ok a) =
        Reaches-pure (destroy_path sys root path) (λ _. a) (destroy_path-Gone root path)
    release-Gone path (err e) =
        Reaches-bind (attempt (destroy_path sys root path)) _ (λ _. raise-Reaches e)

    -- Work under a guard that succeeds leaves no shadow behind, whatever the work did; if a
    -- directory that was removed without an error is gone.
    pub guarded-Gone :
        (shadow : Shadow) (work : FilePath → Exec W String A) (w w' : W) (a : A)
        → guarded sys root shadow work w ≡ (ok a, w')
        → sys.exists shadow.path w' ≡ false
    unfolding guarded
    guarded-Gone shadow work =
        (Reaches-bind {P = Gone shadow.path} (catch (work shadow.path)) _
          (release-Gone shadow.path)).at
