-- ===== src/Promote/Operator/Stored.antt =====
-- src/promote/model.rs, `save` and `load`: a record that was saved is the one that is loaded.
use navin_engine.Prelude.{
  String, ◌≡◌, refl, ap, ◌∙◌, arith, [], ◌∷◌, Result, ok, Leaves, Leaves-bind, ◌>>=◌, >>=-eq-ok,
  pure,
}
use mathlib.Core.Path.{subst}
use navin_engine.Prelude.Text.{concat}
use navin_engine.System.{System, with_context, with_context-eq-ok}
use navin_engine.System.Path.{FilePath, display}
use navin_engine.Promote.Engine.{finish}
use navin_engine.Promote.Record.{
  PromotionRecord, Codec, record_path, sidecar_path, save, load, write_sidecar,
}

-- The file of the record `id` holds what was written to it last, and writing the markdown beside
-- it leaves it alone.
pub record Store {W : Type 0} (sys : System W) (codec : Codec) (root : FilePath) (id : String)
    : Type 0 where
  pub kept :
      (text : String) (w w' : W)
      → sys.write (record_path sys codec root id) text w ≡ (ok tt, w')
      → (sys.read_to_string (record_path sys codec root id) w').0 ≡ ok text
  pub beside :
      (text : String) (w : W)
      → (sys.read_to_string
          (record_path sys codec root id)
          (sys.write (sidecar_path sys codec root id) text w).1).0
        ≡ (sys.read_to_string (record_path sys codec root id) w).0

module _ {W : Type 0} (sys : System W) (codec : Codec) (root : FilePath) (id : String)
    (store : Store sys codec root id) where
  -- The record on disk is `r`, if it goes by this id and serde_json reads back what it wrote.
  abbrev pub OnDisk : PromotionRecord → W → Type 0
  OnDisk r w =
      r.id ≡ id → codec.of_json (codec.to_json r) ≡ ok r → (load sys codec root id w).0 ≡ ok r

  read-load :
      (r : PromotionRecord) (w : W)
      → codec.of_json (codec.to_json r) ≡ ok r
      → (sys.read_to_string (record_path sys codec root id) w).0 ≡ ok (codec.to_json r)
      → (load sys codec root id w).0 ≡ ok r
  unfolding load ◌>>=◌ with_context
  read-load r w back e = rw (e, back) refl

  write-read :
      (own text context side : String) (w w' : W) (u : Unit {0})
      → own ≡ id
      → with_context context (sys.write (record_path sys codec root own) text) w ≡ (ok u, w')
      → (sys.read_to_string
          (record_path sys codec root id)
          (write_sidecar sys codec (sidecar_path sys codec root own) side w').1).0
        ≡ ok text
  unfolding with_context
  write-read own text context side w w' u e h = rw e (
      store.beside side w'
      ∙ store.kept text w w' (
          with_context-eq-ok context (sys.write (record_path sys codec root id) text) w
            (rw (← e) h)))

  save-OnDisk : (r : PromotionRecord) → Leaves (λ u. OnDisk r) (save sys codec root r)
  unfolding save
  save-OnDisk r = Leaves-bind (with_context _ (sys.create_dir_all _)) _ (λ _. record {
    at = λ w w' u h. λ e back.
        let context = concat ("cannot write " ∷ display (record_path sys codec root r.id) ∷ []) in
        let written =
          with_context context (sys.write (record_path sys codec root r.id) (codec.to_json r)) in
        let side = write_sidecar sys codec (sidecar_path sys codec root r.id) in
        let (v, first, rest) = >>=-eq-ok written (λ _. side (codec.promotion r)) w h in
        let last = ap (λ (p : Result String Unit × W). p.1) rest in
        let there =
          write-read r.id (codec.to_json r) context (codec.promotion r) w (written w).1 v e
            (ground (arith, first)) in
        read-load r w' back (
          subst
            (λ (x : W).
              (sys.read_to_string (record_path sys codec root id) x).0 ≡ ok (codec.to_json r))
            last there);
  })

  pub finish-OnDisk : (r : PromotionRecord) → Leaves OnDisk (finish sys codec root r)
  unfolding finish pure
  finish-OnDisk r = record {
    at = λ w w' a h.
        let (u, first, rest) = >>=-eq-ok (save sys codec root r) (λ _. pure r) w h in
        let stored = (save-OnDisk r).at w (save sys codec root r w).1 u (ground (arith, first)) in
        let same = ap (λ (p : Result String PromotionRecord × W). p.1) rest in
        let one : r ≡ a = ground (arith, rest) in
        subst (λ (x : PromotionRecord). OnDisk x w') one (subst (OnDisk r) same stored);
  }
