-- ===== src/Fix/Prove/Gone.antt =====
-- src/fix/engine.rs and src/proof/engine.rs: a proof leaves no shadow behind.
use mathlib.Core.Path.{subst}
use navin_engine.Prelude.{
  String, ◌≡◌, refl, Bool, true, false, Option, [], ◌∷◌, ◌++◌, Result, ok, err, Exec, Keeps,
  Keeps-pure, Keeps-raise, Keeps-bind, Reaches, Reaches-bind-of, Reaches-then, Returns,
  Returns-pure, Returns-bind,
}
use navin_engine.Prelude.Reals.{F64}
use navin_engine.System.{System, gets, now_epoch, Keeps-gets}
use navin_engine.System.Path.{FilePath}
use navin_engine.Policy.{EvolveConfig}
use navin_engine.Proof.{ProofReport}
use navin_engine.Fix.Model.{FixPatch}
use navin_engine.Fix.Engine.{Evidence}
use navin_engine.Fix.Prove.{FixContext, Gathered, evidence_of, prove_and_diagnose}
use navin_engine.Runner.{Wire}
use navin_engine.Shadow.{Shadow, Materials, shadow_dir, create_inner, create_at, create, guarded}
use navin_engine.Shadow.Gone.{Removes, guarded-Gone}

module _ {W : Type 0} (fl : F64) (sys : System W) (wire : Wire W fl.Carrier)
    (load_config : FilePath → Exec W String EvolveConfig) (materials : Materials W)
    (laws : Removes sys) (root : FilePath) where
  abbrev Cleared : String → W → Type 0
  Cleared run_id w = sys.exists (shadow_dir root ++ run_id ∷ []) w ≡ false

  create_at-path :
      (run_id : String) (dest : FilePath) (include_uncommitted repo : Bool)
      → Returns
          (λ (s : Shadow). s.path ≡ dest)
          (create_at sys materials root run_id dest include_uncommitted repo)
  create_at-path run_id dest carried true = Returns-bind _ _ (λ sha.
      Returns-bind _ _
        (λ added. Returns-bind _ _ (λ carry. Returns-bind _ _ (λ lent. Returns-pure _ refl))))
  create_at-path run_id dest carried false =
      Returns-bind _ _ (λ copied. Returns-bind _ _ (λ lent. Returns-pure _ refl))

  create_inner-path :
      (run_id : String) (include_uncommitted : Bool)
      → Returns
          (λ (s : Shadow). s.path ≡ shadow_dir root ++ run_id ∷ [])
          (create_inner sys materials root run_id include_uncommitted)
  unfolding create_inner
  create_inner-path run_id carried = Returns-bind _ _ (λ valid. Returns-bind _ _ (λ reclaimed.
      Returns-bind _ _ (λ made. Returns-bind _ _ (λ repo. create_at-path run_id _ carried repo))))

  guarded-Cleared :
      {A : Type 0} (run_id : String) (shadow : Shadow) (work : FilePath → Exec W String A)
      → shadow.path ≡ shadow_dir root ++ run_id ∷ []
      → Reaches (Cleared run_id) (guarded sys root shadow work)
  guarded-Cleared run_id shadow work e = record {
    at = λ w w' a h.
        subst (λ (p : FilePath). sys.exists p w' ≡ false) e
          (guarded-Gone sys laws root shadow work w w' a h);
  }

  module _ (ctx : FixContext fl.Carrier) where
    evidence_of-Keeps :
        {P : W → Type 0} (g : Gathered fl.Carrier) (r : Result String (ProofReport fl.Carrier))
        → Keeps P (evidence_of fl sys wire load_config materials ctx root g r)
    evidence_of-Keeps g (err e) = Keeps-raise e
    evidence_of-Keeps g (ok report) =
        Keeps-bind (gets (now_epoch sys)) _ (Keeps-gets _) (λ now. Keeps-pure _)

    -- The evidence of a candidate comes without its shadow: whatever the candidate, the tests and
    -- the proof did, the shadow of that run is gone when the evidence is there; if a directory
    -- that was removed without an error is gone.
    pub prove_and_diagnose-Gone :
        (run_id : String) (patch : Option FixPatch) (w w' : W) (e : Evidence fl.Carrier)
        → prove_and_diagnose fl sys wire load_config materials ctx root run_id patch w ≡ (ok e, w')
        → sys.exists (shadow_dir root ++ run_id ∷ []) w' ≡ false
    unfolding prove_and_diagnose
    prove_and_diagnose-Gone run_id patch =
        (Reaches-bind-of (λ (s : Shadow). s.path ≡ shadow_dir root ++ run_id ∷ [])
          {P = Cleared run_id} (create sys materials root run_id) _ (create_inner-path run_id false)
          (λ shadow e.
            Reaches-then (guarded sys root shadow _) _ (guarded-Cleared run_id shadow _ e)
              (λ gathered. evidence_of-Keeps gathered gathered.report))).at
