-- ===== src/Verify/Differential.antt =====
-- src/verify/differential.rs, `compare`: the answers of two instances to the same vectors. The
-- requests and the digest that a fingerprint carries are in Verify/Crawl.antt.
pub mod Equivalent
use navin_engine.Prelude.{
  ℕ, String, Bool, not, List, [], ◌∷◌, ◌++◌, ◌==◌, str_eq, is_empty, length, if◌then◌else◌, Message,
  fmt, num, str,
}

pub record Fingerprint : Type 0 where
  pub path : String
  pub status : ℕ  -- u16
  pub body_len : ℕ
  pub body_hash : String

pub record DiffOutcome (F : Type 0) : Type 0 where
  pub vectors : ℕ
  pub divergences : List (Message F)
  pub equivalent : Bool

module _ {F : Type 0} where
  -- The body of the loop over the zipped lists.
  abbrev pub diverge : Fingerprint → Fingerprint → List (Message F) → List (Message F)
  diverge before after found =
      if not (before.status == after.status)
      then found
        ++ fmt "{}: status {} -> {}" (str before.path ∷ num before.status ∷ num after.status ∷ [])
          ∷ []
      else if not (str_eq before.body_hash after.body_hash)
      then found
        ++ fmt "{}: body changed ({} -> {} bytes)"
            (str before.path ∷ num before.body_len ∷ num after.body_len ∷ [])
          ∷ []
      else found

  unfoldable pub diverge_all :
      List (Message F) → List Fingerprint → List Fingerprint → List (Message F)
  diverge_all found [] _ = found
  diverge_all found (b ∷ bs) [] = found
  diverge_all found (b ∷ bs) (c ∷ cs) = diverge_all (diverge b c found) bs cs

  abbrev pub count_mismatch :
      List Fingerprint → List Fingerprint → List (Message F) → List (Message F)
  count_mismatch baseline candidate found =
      if not (length candidate == length baseline)
      then found
        ++ fmt "vector count mismatch: {} baseline, {} candidate"
            (num (length baseline) ∷ num (length candidate) ∷ [])
          ∷ []
      else found

  unfoldable pub compare : List Fingerprint → List Fingerprint → DiffOutcome F
  compare baseline candidate =
      let divergences = count_mismatch baseline candidate (diverge_all [] baseline candidate) in
      record {
        vectors = length baseline;
        divergences = divergences;
        equivalent = is_empty divergences;
      }
