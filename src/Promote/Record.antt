-- ===== src/Promote/Record.antt =====
-- src/promote/model.rs (PromotionOutcome, PromotionRecord): what a promotion did, on disk.
use navin_engine.Prelude.{String, Bool, Option, List, [], ◌∷◌, ◌++◌, Result, Exec, ◌>>=◌, ◌>>◌}
use navin_engine.Prelude.Text.{concat}
use navin_engine.System.{System, with_context}
use navin_engine.System.Path.{FilePath, display}
use navin_engine.Promote.Certificate.{Certificate}

pub data PromotionOutcome : Type 0 where
  blocked branch_only merged : PromotionOutcome

pub record PromotionRecord : Type 0 where
  pub schema : String
  pub id : String
  pub finding : String
  pub candidate_id : String
  pub mode : String
  pub outcome : PromotionOutcome
  pub reasons : List String
  pub branch : Option String
  pub commit_sha : Option String
  pub prev_head : Option String
  pub merged : Bool
  pub certificate : Option Certificate
  pub diff : Option String
  pub pushed_to : Option String
  pub pull_request : Option String
  pub created_at : String
  pub rolled_back_at : Option String

-- The texts that serde_json reads and writes, and the markdown that src/report.rs renders.
pub record Codec : Type 0 where
  pub to_json : PromotionRecord → String
  pub of_json : String → Result String PromotionRecord
  pub promotion : PromotionRecord → String

abbrev pub promotions_dir : FilePath → FilePath
promotions_dir root = root ++ ".navin" ∷ "promotions" ∷ []

module _ {W : Type 0} (sys : System W) (codec : Codec) where
  open sys use {create_dir_all, write, read_to_string}

  abbrev pub record_path : FilePath → String → FilePath
  record_path root id = promotions_dir root ++ concat (id ∷ ".json" ∷ []) ∷ []

  -- `with_extension("md")` of the path above
  abbrev pub sidecar_path : FilePath → String → FilePath
  sidecar_path root id = promotions_dir root ++ concat (id ∷ ".md" ∷ []) ∷ []

  abbrev pub write_sidecar : FilePath → String → Exec W String Unit
  write_sidecar path markdown =
      with_context (concat ("cannot write " ∷ display path ∷ [])) (write path markdown)

  unfoldable pub save : FilePath → PromotionRecord → Exec W String Unit
  save root r = do
    with_context (concat ("cannot create " ∷ display (promotions_dir root) ∷ []))
        (create_dir_all (promotions_dir root))
    with_context (concat ("cannot write " ∷ display (record_path root r.id) ∷ []))
        (write (record_path root r.id) (codec.to_json r))
    write_sidecar (sidecar_path root r.id) (codec.promotion r)

  abbrev parsed : Result String PromotionRecord → Exec W String PromotionRecord
  parsed r w = (r, w)

  unfoldable pub load : FilePath → String → Exec W String PromotionRecord
  load root id = do
    text ←
        with_context (concat ("no promotion record at " ∷ display (record_path root id) ∷ []))
          (read_to_string (record_path root id))
    parsed (codec.of_json text)
