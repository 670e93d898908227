-- ===== src/System.antt =====
-- The machine under the engine: processes, the file system and the clock, as a record over the
-- type `W` of the machine's states. `std::fs`, `git` and the clock are not the engine's code, so
-- they are parameters, and what a theorem relies on is a hypothesis about them.
-- src/lib.rs, the directories of the engine.
pub mod Path
use navin_engine.Prelude.{
  ◌≡◌, refl, ap, arith, ℕ, String, Bool, true, false, Option, none, some, List, [], ◌∷◌, ◌++◌,
  Result, ok, err, Exec, pure, raise, Keeps, Keeps-pure, Keeps-raise, Ran, Returns, Returns-pure,
  Returns-raise, ◌∙◌, zero, suc, ◌>>=◌,
}
use navin_engine.Prelude.Text.{concat, show}
use navin_engine.System.Path.{FilePath}

-- What a finished process left: its exit status and its two streams, as lossy UTF-8.
pub record Output : Type 0 where
  pub success : Bool
  pub stdout : String
  pub stderr : String
  pub is_utf8 : Bool  -- the standard output was valid UTF-8

pub record System (W : Type 0) : Type 0 where
  pub run_git : FilePath → List String → Exec W String Output  -- git -C DIR ARGS
  pub git_apply : FilePath → String → Exec W String Output  -- git -C DIR apply --whitespace=nowarn -
  -- `SupervisedProcess::spawn` of a shell command in a directory, with its log file, and
  -- `wait_with_deadline` in seconds: the exit code, or a failure to spawn or to end in time
  pub run_command : String → FilePath → FilePath → ℕ → Exec W String ℕ
  pub exists : FilePath → W → Bool
  pub is_file : FilePath → W → Bool
  pub is_dir : FilePath → W → Bool
  pub create_dir_all : FilePath → Exec W String Unit
  pub write : FilePath → String → Exec W String Unit
  pub read_to_string : FilePath → Exec W String String
  pub copy : FilePath → FilePath → Exec W String Unit
  pub remove_dir_all : FilePath → Exec W String Unit
  pub read_dir : FilePath → Exec W String (List String)
  pub set_owner_only : FilePath → Exec W String Unit  -- permissions 0o600
  pub random_bytes : ℕ → Exec W String (List ℕ)
  pub epoch_secs : W → ℕ

module _ {A : Type 0} where
  abbrev in_context : String → Result String A → Result String A
  in_context outer (ok a) = ok a
  in_context outer (err e) = err (concat (outer ∷ ": " ∷ e ∷ []))

  -- `with_context`: the outer message in front of the chain, which `{err:#}` joins by ": ".
  unfoldable pub with_context : {W : Type 0} → String → Exec W String A → Exec W String A
  with_context outer m w = let r = m w in (in_context outer r.0, r.1)

abbrev ok_of : {A : Type 0} → Result String A → Option A
ok_of (ok a) = some a
ok_of (err e) = none

module _ {W A : Type 0} where
  -- `.ok()`: the error is dropped, what was done stays done.
  unfoldable pub attempt : Exec W String A → Exec W String (Option A)
  attempt m w = let r = m w in (ok (ok_of r.0), r.1)

  -- `match` on a result: the error becomes a value.
  unfoldable pub catch : Exec W String A → Exec W String (Result String A)
  catch m w = let r = m w in (ok r.0, r.1)

  -- A reading of the machine that changes nothing.
  unfoldable pub gets : (W → A) → Exec W String A
  gets f w = (ok (f w), w)

module _ {W A : Type 0} where
  -- What never fails, and may change the machine.
  unfoldable pub always : (W → A × W) → Exec W String A
  always f w = let r = f w in (ok r.0, r.1)

-- `matches!(result, Ok(0))`
abbrev pub exits_zero : Result String ℕ → Bool
exits_zero (ok zero) = true
exits_zero (ok (suc n)) = false
exits_zero (err e) = false

-- A shell command that counts as passed when it ends in time with code 0; a failure to spawn it
-- is a failure of the command.
unfoldable pub command_ok :
    {W : Type 0} → System W → String → FilePath → FilePath → ℕ → Exec W String Bool
unfolding ◌>>=◌ catch pure
command_ok sys cmd dir log deadline = do
  ended ← catch (sys.run_command cmd dir log deadline)
  pure (exits_zero ended)

unfoldable pub ensure : {W : Type 0} → Bool → String → Exec W String Unit
unfolding pure raise
ensure true e = pure tt
ensure false e = raise e

-- `.navin/evolve` in the project, as `engine_dir`.
abbrev pub engine_dir : FilePath → FilePath
engine_dir root = root ++ ".navin" ∷ "evolve" ∷ []

abbrev pub engine_version : String
engine_version = "0.1.0"

-- `proof::now_epoch` (src/proof/mod.rs)
unfoldable pub now_epoch : {W : Type 0} → System W → W → String
now_epoch sys w = concat ("epoch:" ∷ show (sys.epoch_secs w) ∷ [])

in_context-eq-ok :
    {A : Type 0} (outer : String) (r : Result String A) (a : A)
    → in_context outer r ≡ ok a
    → r ≡ ok a
in_context-eq-ok outer (ok b) a h = h
in_context-eq-ok outer (err e) a h = cc

module _ {W A : Type 0} where
  pub with_context-eq-ok :
      (outer : String) (m : Exec W String A) (w : W) {w' : W} {a : A}
      → with_context outer m w ≡ (ok a, w')
      → m w ≡ (ok a, w')
  unfolding with_context
  with_context-eq-ok outer m w {w'} {a} h =
      let e = in_context-eq-ok outer (m w).0 a (ap (λ (p : Result String A × W). p.0) h) in
      ground (arith, e)

module _ {κ} {W A : Type 0} {P : W → Type κ} where
  pub Keeps-with_context :
      (outer : String) (m : Exec W String A) → Keeps P m → Keeps P (with_context outer m)
  unfolding with_context
  Keeps-with_context outer m km = record { at = km.at }

  pub Keeps-attempt : (m : Exec W String A) → Keeps P m → Keeps P (attempt m)
  unfolding attempt
  Keeps-attempt m km = record { at = km.at }

  pub Keeps-catch : (m : Exec W String A) → Keeps P m → Keeps P (catch m)
  unfolding catch
  Keeps-catch m km = record { at = km.at }

  pub Keeps-gets : (f : W → A) → Keeps P (gets f)
  unfolding gets
  Keeps-gets f = record { at = λ w h. h }

inner : {A : Type 0} → Result String A → Result String (Result String A) → Result String A
inner d (ok r) = r
inner d (err e) = d

-- What a caught success returns.
pub Returns-catch {κ} :
    {W A : Type 0} {Q : A → Type κ} (m : Exec W String A)
    → Returns Q m
    → Returns (λ r. (a : A) → r ≡ ok a → Q a) (catch m)
unfolding catch inner
Returns-catch {W} {A} m rm = record {
  at = λ w w' b h a e.
      let r : (m w).0 ≡ ok a =
        ap (λ (p : Result String (Result String A) × W). inner b p.0) h ∙ e in
      rm.at w (m w).1 a (ground (arith, r));
}

pub Keeps-ensure {κ} : {W : Type 0} {P : W → Type κ} (b : Bool) (e : String) → Keeps P (ensure b e)
unfolding ensure
Keeps-ensure true e = Keeps-pure tt
Keeps-ensure false e = Keeps-raise e

pub Returns-ensure :
    {W : Type 0} (b : Bool) (e : String) → Returns (λ (u : Unit {0}). b ≡ true) (ensure {W = W} b e)
unfolding ensure
Returns-ensure true e = Returns-pure tt refl
Returns-ensure false e = Returns-raise e

-- What is returned within a context was returned without it.
pub Returns-with_context :
    {W A : Type 0} (context : String) (m : Exec W String A)
    → Returns (Ran m) (with_context context m)
Returns-with_context context m = record {
  at = λ w w' a h. record { before = w; after = w'; run = with_context-eq-ok context m w h };
}

pub ruleset system_rules =
    (Keeps-with_context, Keeps-attempt, Keeps-catch, Keeps-gets, Keeps-ensure)
