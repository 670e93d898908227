-- ===== src/Promote/Certificate/Authentic.antt =====
-- Certificates that the engine issues.
use navin_engine.Prelude.{
  ◌≡◌, refl, String, true, Option, none, some, length, find, All, str_eq, eq_iff, arith, ok,
  >>=-eq-ok, ◌>>=◌, pure, raise,
}
use navin_engine.System.{System, with_context-eq-ok, now_epoch, gets}
use navin_engine.System.Path.{FilePath}
use navin_engine.Fix.Model.{FixCandidate, FixAttempt, FixReport}
use navin_engine.Promote.Hex.{encode_hex}
use navin_engine.Promote.Hex.RoundTrip.{IsByte, decode_hex-encode_hex}
use navin_engine.Promote.Certificate.{
  Certificate, Crypto, signing_message, compute_checksum, checksum_matches, verify, signature_valid,
  sign, load_or_create, unsigned, issue_for, issue,
}

-- What the signature crate documents: keys and signatures have fixed lengths, and a signature
-- verifies under the key that made it.
pub record CryptoLaws (crypto : Crypto) : Type 0 where
  pub key_bytes : (k : crypto.SigningKey) → All IsByte (crypto.verifying_key k)
  pub key_length : (k : crypto.SigningKey) → length (crypto.verifying_key k) ≡ 32
  pub key_accepted : (k : crypto.SigningKey) → crypto.is_key (crypto.verifying_key k) ≡ true
  pub signature_bytes : (k : crypto.SigningKey) (m : String) → All IsByte (crypto.sign_with k m)
  pub signature_length : (k : crypto.SigningKey) (m : String) → length (crypto.sign_with k m) ≡ 64
  pub verifies_own :
      (k : crypto.SigningKey) (m : String)
      → crypto.verifies (crypto.verifying_key k) m (crypto.sign_with k m) ≡ true

module _ (crypto : Crypto) where
  -- `c` with the two fields that signing fills in.
  abbrev signed : crypto.SigningKey → Certificate → Certificate
  signed k c = record c {
    signature = encode_hex (crypto.sign_with k (signing_message c));
    public_key = encode_hex (crypto.verifying_key k);
  }

  signing_message-signed :
      (k : crypto.SigningKey) (c : Certificate) → signing_message (signed k c) ≡ signing_message c
  unfolding signing_message
  signing_message-signed k c = refl

  checksum-signed :
      (k : crypto.SigningKey) (c : Certificate)
      → c.checksum ≡ compute_checksum crypto c
      → checksum_matches crypto (signed k c) ≡ true
  unfolding checksum_matches compute_checksum
  checksum-signed k c h = (eq_iff _ _).1 h

  module _ (laws : CryptoLaws crypto) where
    verify-signed :
        (k : crypto.SigningKey) (c : Certificate) → verify crypto (signed k c) ≡ some true
    unfolding verify
    verify-signed k c =
        let m : String = signing_message c in
        let dk = decode_hex-encode_hex (crypto.verifying_key k) (laws.key_bytes k) in
        let ds = decode_hex-encode_hex (crypto.sign_with k m) (laws.signature_bytes k m) in
        ground (
          arith,
          dk,
          ds,
          laws.key_length k,
          laws.signature_length k m,
          laws.key_accepted k,
          laws.verifies_own k m,
          signing_message-signed k c,
        )

  module _ {W : Type 0} (sys : System W) (root : FilePath) where
    sign-signed :
        (c d : Certificate) (w w' : W)
        → sign crypto sys root c w ≡ (ok d, w')
        → (k : crypto.SigningKey) × (d ≡ signed k c)
    unfolding sign pure
    sign-signed c d w w' h =
        let (k, e, f) = >>=-eq-ok (load_or_create crypto sys root) _ w h in (k, ground arith)

module _ {F : Type 0} (report : FixReport F) (candidate : FixCandidate) where
  -- What a certificate says of the attempt that it was issued for.
  pub record Certifies (attempt : FixAttempt F) (c : Certificate) : Type 0 where
    pub finding : c.finding ≡ report.target_finding
    pub commit : c.commit_before ≡ report.commit
    pub candidate_id : c.candidate_id ≡ candidate.id
    pub family : c.family ≡ candidate.family
    pub score_before : c.score_before ≡ attempt.comparison.score_before
    pub score_after : c.score_after ≡ attempt.comparison.score_after
    pub verdict_after : c.verdict_after ≡ attempt.comparison.verdict_after
    pub resolved_target : c.resolved_target ≡ attempt.comparison.resolved_target

  abbrev pub attempt_of : Option (FixAttempt F)
  attempt_of = find (λ a. str_eq a.candidate_id candidate.id) report.attempts

  module _ {W : Type 0} (crypto : Crypto) (laws : CryptoLaws crypto) (sys : System W)
      (root : FilePath) where
    abbrev Issued : Option (FixAttempt F) → Certificate → Type 0
    Issued o c =
        (checksum_matches crypto c ≡ true)
        × (signature_valid crypto c ≡ some true)
        × (a : FixAttempt F) × (o ≡ some a)
        × Certifies a c

    -- The certificate that is signed.
    abbrev filled : W → FixAttempt F → Certificate
    filled w a =
        let c = unsigned crypto sys (now_epoch sys w) report candidate a in
        record c { checksum = compute_checksum crypto c }

    checksum-filled :
        (w : W) (a : FixAttempt F) → (filled w a).checksum ≡ compute_checksum crypto (filled w a)
    unfolding compute_checksum
    checksum-filled w a = refl

    signature-signed :
        (k : crypto.SigningKey) (c : Certificate)
        → signature_valid crypto (signed crypto k c) ≡ some true
    unfolding signature_valid
    signature-signed k c = verify-signed crypto laws k c

    issue_for-Issued :
        (o : Option (FixAttempt F)) (c : Certificate) (w w' : W)
        → issue_for crypto sys root report candidate o w ≡ (ok c, w')
        → Issued o c
    unfolding raise gets ◌>>=◌
    issue_for-Issued none c w w' h = cc
    issue_for-Issued (some a) c w w' h =
        let e = with_context-eq-ok "signing the certificate" (sign crypto sys root _) w h in
        let u = filled w a in
        let (k, q) = sign-signed crypto sys root u c w w' e in
        rw q (
          checksum-signed crypto k u (checksum-filled w a),
          signature-signed k u,
          a,
          refl,
          record {
            finding = refl;
            commit = refl;
            candidate_id = refl;
            family = refl;
            score_before = refl;
            score_after = refl;
            verdict_after = refl;
            resolved_target = refl;
          },
        )

    -- A certificate that `issue` returns carries its own checksum and a signature that verifies,
    -- and it repeats the measurements of the first attempt in the report that has the candidate's
    -- id; if the signature crate keeps its contract.
    pub issue-Issued :
        (c : Certificate) (w w' : W)
        → issue crypto sys root report candidate w ≡ (ok c, w')
        → Issued attempt_of c
    unfolding issue
    issue-Issued c w w' h = issue_for-Issued attempt_of c w w' h
