-- ===== src/Promote/Certificate.antt =====
-- src/promote/model.rs (Certificate), identity.rs and certify.rs: certificates, the signing
-- identity of a workspace, and how a certificate is issued.
pub mod Authentic
pub mod Message
use navin_engine.Prelude.{
  ℕ, ◌/◌, ◌%◌, ◌^◌, String, Bool, true, false, ◌&&◌, Option, none, some, List, [], ◌∷◌, ◌++◌, ◌==◌,
  leb, str_eq, length, find, if◌then◌else◌, Result, ok, err, Exec, pure, raise, ◌>>=◌, ◌>>◌,
}
use navin_engine.Prelude.Text.{concat, join, trim, show}
use navin_engine.System.{System, with_context, attempt, gets, engine_dir, engine_version, now_epoch}
use navin_engine.System.Path.{FilePath, display, parent}
use navin_engine.Proof.{Verdict, pass, weak, fail, is_pass}
use navin_engine.Fix.Model.{FixCandidate, FixAttempt, FixReport}
use navin_engine.Promote.Hex.{encode_hex, Decoded, bytes, invalid, panicked, decode_hex}

pub record Certificate : Type 0 where
  pub schema : String
  pub engine_version : String
  pub finding : String
  pub candidate_id : String
  pub family : String
  pub commit_before : String
  pub score_before : ℕ  -- u8
  pub score_after : ℕ  -- u8
  pub verdict_after : Verdict
  pub resolved_target : Bool
  pub issued_at : String
  pub checksum : String
  pub signature : String
  pub public_key : String

-- The crates that sign and hash: ed25519-dalek, and the standard library's `DefaultHasher`, whose
-- algorithm is not specified.
pub data HashInput : Type 0 where
  text : String → HashInput
  byte : ℕ → HashInput
  flag : Bool → HashInput

pub record Crypto : Type 1 where
  pub SigningKey : Type 0
  pub from_bytes : List ℕ → SigningKey
  pub sign_with : SigningKey → String → List ℕ
  pub verifying_key : SigningKey → List ℕ
  pub is_key : List ℕ → Bool  -- `VerifyingKey::from_bytes` accepts it
  pub verifies : List ℕ → String → List ℕ → Bool
  pub digest : List HashInput → ℕ

-- A certificate is valid only when the fix helped.
unfoldable pub is_valid : Certificate → Bool
is_valid c = is_pass c.verdict_after && leb c.score_before c.score_after && c.resolved_target

-- `{:?}` of a verdict, and `{}` of a Boolean.
abbrev pub debug : Verdict → String
debug pass = "Pass"
debug weak = "Weak"
debug fail = "Fail"

abbrev pub show_bool : Bool → String
show_bool true = "true"
show_bool false = "false"

-- `{:016x}` of a 64-bit number: its eight bytes, the highest first.
abbrev hex64 : ℕ → String
hex64 n = encode_hex (
    n / 2 ^ 56 % 256
    ∷ (n / 2 ^ 48 % 256)
    ∷ (n / 2 ^ 40 % 256)
    ∷ (n / 2 ^ 32 % 256)
    ∷ (n / 2 ^ 24 % 256)
    ∷ (n / 2 ^ 16 % 256)
    ∷ (n / 2 ^ 8 % 256)
    ∷ (n % 256)
    ∷ [])

abbrev hashed_fields : Certificate → List HashInput
hashed_fields c =
    text c.schema
    ∷ text c.engine_version
    ∷ text c.finding
    ∷ text c.candidate_id
    ∷ text c.family
    ∷ text c.commit_before
    ∷ byte c.score_before
    ∷ byte c.score_after
    ∷ text (debug c.verdict_after)
    ∷ flag c.resolved_target
    ∷ text c.issued_at
    ∷ []

unfoldable pub signing_message : Certificate → String
signing_message c = join "\n" (
    c.schema
    ∷ c.engine_version
    ∷ c.finding
    ∷ c.candidate_id
    ∷ c.family
    ∷ c.commit_before
    ∷ show c.score_before
    ∷ show c.score_after
    ∷ debug c.verdict_after
    ∷ show_bool c.resolved_target
    ∷ c.issued_at
    ∷ c.checksum
    ∷ [])

module _ (crypto : Crypto) where
  open crypto use {SigningKey, from_bytes, sign_with, verifying_key, is_key, verifies, digest}

  unfoldable pub compute_checksum : Certificate → String
  compute_checksum c = hex64 (digest (hashed_fields c))

  unfoldable pub checksum_matches : Certificate → Bool
  checksum_matches c = str_eq c.checksum (compute_checksum c)

  -- The part of `verify` behind the public key.
  abbrev verify_signature : Certificate → List ℕ → Decoded → Option Bool
  verify_signature c key (bytes sig) =
      if length sig == 64 then some (verifies key (signing_message c) sig) else some false
  verify_signature c key invalid = some false
  verify_signature c key panicked = none

  abbrev verify_key : Certificate → Decoded → Option Bool
  verify_key c (bytes key) =
      if length key == 32
      then (if is_key key then verify_signature c key (decode_hex c.signature) else some false)
      else some false
  verify_key c invalid = some false
  verify_key c panicked = none

  -- `none` is a panic.
  unfoldable pub verify : Certificate → Option Bool
  verify c = verify_key c (decode_hex c.public_key)

  unfoldable pub signature_valid : Certificate → Option Bool
  unfolding verify
  signature_valid c = verify c

  unfoldable pub is_authentic : Certificate → Option Bool
  is_authentic c = if is_valid c && checksum_matches c then signature_valid c else some false

  module _ {W : Type 0} (sys : System W) where
    open sys use {is_file, read_to_string, create_dir_all, write, set_owner_only, random_bytes}

    abbrev pub identity_path : FilePath → FilePath
    identity_path root = engine_dir root ++ "identity.ed25519" ∷ []

    abbrev pub key_of_hex : FilePath → Decoded → Exec W String SigningKey
    key_of_hex path (bytes seed) =
        if length seed == 32
        then pure (from_bytes seed)
        else raise (concat (display path ∷ " must hold exactly 32 bytes" ∷ []))
    key_of_hex path invalid = raise (concat (display path ∷ " is not valid hex" ∷ []))
    key_of_hex path panicked = raise "panicked: not a char boundary"

    abbrev pub read_identity : FilePath → Exec W String SigningKey
    read_identity path = do
      contents ← with_context (concat ("cannot read " ∷ display path ∷ [])) (read_to_string path)
      key_of_hex path (decode_hex (trim contents))

    abbrev pub create_identity : FilePath → FilePath → Exec W String SigningKey
    create_identity root path = do
      seed ← random_bytes 32
      with_context (concat ("cannot create " ∷ display (engine_dir root) ∷ []))
          (create_dir_all (engine_dir root))
      with_context (concat ("cannot write " ∷ display path ∷ [])) (write path (encode_hex seed))
      attempt (set_owner_only path)
      pure (from_bytes seed)

    unfoldable pub load_or_create : FilePath → Exec W String SigningKey
    load_or_create root = do
      here ← gets (is_file (identity_path root))
      if here then read_identity (identity_path root) else create_identity root (identity_path root)

    unfoldable pub sign : FilePath → Certificate → Exec W String Certificate
    sign root c = do
      key ← load_or_create root
      pure (record c {
        signature = encode_hex (sign_with key (signing_message c));
        public_key = encode_hex (verifying_key key);
      })

    -- The certificate that `issue` fills in before it is signed.
    abbrev pub unsigned :
        {F : Type 0} → String → FixReport F → FixCandidate → FixAttempt F → Certificate
    unsigned now report candidate attempt = record {
      schema = "navin-certificate/v1";
      engine_version = engine_version;
      finding = report.target_finding;
      candidate_id = candidate.id;
      family = candidate.family;
      commit_before = report.commit;
      score_before = attempt.comparison.score_before;
      score_after = attempt.comparison.score_after;
      verdict_after = attempt.comparison.verdict_after;
      resolved_target = attempt.comparison.resolved_target;
      issued_at = now;
      checksum = "";
      signature = "";
      public_key = "";
    }

    abbrev pub issue_for :
        {F : Type 0}
        → FilePath
        → FixReport F
        → FixCandidate
        → Option (FixAttempt F)
        → Exec W String Certificate
    issue_for root report candidate none =
        raise (concat ("no attempt for candidate `" ∷ candidate.id ∷ "` in the fix report" ∷ []))
    issue_for root report candidate (some attempt) = do
      now ← gets (now_epoch sys)
      let c = unsigned now report candidate attempt
      with_context "signing the certificate"
          (sign root (record c { checksum = compute_checksum c }))

    unfoldable pub issue :
        {F : Type 0} → FilePath → FixReport F → FixCandidate → Exec W String Certificate
    issue root report candidate =
        issue_for root report candidate
          (find (λ a. str_eq a.candidate_id candidate.id) report.attempts)
