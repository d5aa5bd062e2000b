-- ===== src/Crypto/Cert.antt =====
-- core/src/crypto/cert.rs: the checks of a certificate, over the crates x509-parser and pem.
pub mod Examples
use magic_share.Base.{
  Bool, true, false, ◌≡◌, refl, ap, sym, ◌∙◌, Option, none, some, String, PartialEq, ◌==◌, ==-refl,
  Result, ok, err, ◌>>=◌, >>=-eq-ok,
}
use magic_share.Crypto.{Bytes, Text}
use magic_share.Crypto.Token.{or_err, require}

-- A public key is written in PEM and read again. `is_valid` is the validity at the time of the
-- call, and `verify_signature` checks the signature with the certificate's own key.
pub record X509 : Type 1 where
  pub Certificate : Type 0
  pub SubjectPublicKeyInfo : Type 0
  pub PublicKey : Type 0
  pub same_key : PartialEq PublicKey
  pub from_der : Bytes → Option Certificate
  pub is_valid : Certificate → Bool
  pub verify_signature : Certificate → Bool
  pub subject_pki : Certificate → SubjectPublicKeyInfo
  pub raw : SubjectPublicKeyInfo → Bytes
  pub spki_from_der : Bytes → Option SubjectPublicKeyInfo
  pub parsed : SubjectPublicKeyInfo → Option PublicKey
  pub pem_read : Text → Option Bytes
  pub pem_encode : Bytes → Text
  pub pem_read-encode : (b : Bytes) → pem_read (pem_encode b) ≡ some b
  pub spki_from_der-raw : (k : SubjectPublicKeyInfo) → spki_from_der (raw k) ≡ some k

module _ (x : X509) where
  -- `subject_pki.parsed()?`, and the same for a key in PEM.
  abbrev pub cert_public_key : x.Certificate → Result x.PublicKey
  cert_public_key cert = or_err (x.parsed (x.subject_pki cert)) "invalid public key"

  unfoldable pub expected_public_key : Text → Result x.PublicKey
  expected_public_key key = or_err (x.pem_read key) "invalid PEM" >>= λ contents.
      or_err (x.spki_from_der contents) "invalid public key" >>= λ spki.
      or_err (x.parsed spki) "invalid public key"

  unfoldable pub check_public_key : x.Certificate → Option Text → Result (Unit {0})
  check_public_key cert none = ok tt
  check_public_key cert (some key) = cert_public_key cert >>= λ mine.
      expected_public_key key >>= λ expected.
      require (◌==◌ ⦃eq = x.same_key⦄ mine expected) "Public key mismatch"

  unfoldable pub verify_cert_from_cert : x.Certificate → Option Text → Result (Unit {0})
  verify_cert_from_cert cert public_key = require (x.is_valid cert) "Time validity error" >>= λ _.
      check_public_key cert public_key >>= λ _.
      require (x.verify_signature cert) "signature verification error"

  unfoldable pub verify_cert_from_der : Bytes → Option Text → Result (Unit {0})
  verify_cert_from_der cert public_key =
      or_err (x.from_der cert) "invalid certificate" >>= λ parsed_cert.
      verify_cert_from_cert parsed_cert public_key

  unfoldable pub verify_cert_from_pem : Text → Option Text → Result (Unit {0})
  verify_cert_from_pem cert public_key = or_err (x.pem_read cert) "invalid PEM" >>= λ contents.
      or_err (x.from_der contents) "invalid certificate" >>= λ parsed_cert.
      verify_cert_from_cert parsed_cert public_key

  abbrev pub public_key_from_cert : x.Certificate → Text
  public_key_from_cert cert = x.pem_encode (x.raw (x.subject_pki cert))

  unfoldable pub public_key_from_cert_der : Bytes → Result Text
  public_key_from_cert_der cert = or_err (x.from_der cert) "invalid certificate" >>= λ parsed_cert.
      ok (public_key_from_cert parsed_cert)

  unfoldable pub public_key_from_cert_pem : Text → Result Text
  public_key_from_cert_pem cert = or_err (x.pem_read cert) "invalid PEM" >>= λ contents.
      or_err (x.from_der contents) "invalid certificate" >>= λ parsed_cert.
      ok (public_key_from_cert parsed_cert)

  require-ok : {b : Bool} (e : String) → require b e ≡ ok tt → b ≡ true
  require-ok {b = true} e p = refl
  require-ok {b = false} e p = cc

  or_err-ok : {A : Type 0} {o : Option A} {a : A} (e : String) → or_err o e ≡ ok a → o ≡ some a
  or_err-ok {o = none} e p = cc
  or_err-ok {o = some b} e p = cc

  -- What a certificate is that was verified with an expected key.
  pub record Verified (cert : Bytes) (key : Text) : Type 0 where
    pub parsed_cert : x.Certificate
    pub public_key : x.PublicKey
    pub is_cert : x.from_der cert ≡ some parsed_cert
    pub valid : x.is_valid parsed_cert ≡ true
    pub signed : x.verify_signature parsed_cert ≡ true
    pub has_key : x.parsed (x.subject_pki parsed_cert) ≡ some public_key
    pub is_expected : expected_public_key key ≡ ok public_key

  -- A certificate that passes with an expected key is a certificate, is valid at this time, is
  -- signed with its own key, and that key is the one which the expected text says.
  pub verify_cert_sound :
      (cert : Bytes) (key : Text) → verify_cert_from_der cert (some key) ≡ ok tt → Verified cert key
  unfolding verify_cert_from_der verify_cert_from_cert check_public_key
  verify_cert_sound cert key p =
      let (c, is_cert, p₁) = >>=-eq-ok (or_err (x.from_der cert) "invalid certificate") _ p in
      let (_, valid, p₂) = >>=-eq-ok (require (x.is_valid c) "Time validity error") _ p₁ in
      let (_, checked, signed) = >>=-eq-ok (check_public_key c (some key)) _ p₂ in
      let (mine, has_key, p₃) = >>=-eq-ok (cert_public_key c) _ checked in
      let (expected, is_expected, same) = >>=-eq-ok (expected_public_key key) _ p₃ in
      record {
        parsed_cert = c;
        public_key = expected;
        is_cert = or_err-ok _ is_cert;
        valid = require-ok _ valid;
        signed = require-ok _ signed;
        has_key =
            or_err-ok _ has_key
            ∙ ap some ((x.same_key.test_iff mine expected).0 (require-ok _ same));
        is_expected = is_expected;
      }

  -- The key that is read off a certificate is one that the same certificate passes with, if it
  -- passes without an expected key and its key can be parsed.
  pub own_key_passes :
      (cert : Bytes) (c : x.Certificate) {k : x.PublicKey}
      → x.from_der cert ≡ some c
      → x.parsed (x.subject_pki c) ≡ some k
      → verify_cert_from_der cert none ≡ ok tt
      → (public_key_from_cert_der cert ≡ ok (public_key_from_cert c))
        × (verify_cert_from_der cert (some (public_key_from_cert c)) ≡ ok tt)
  unfolding verify_cert_from_der verify_cert_from_cert check_public_key expected_public_key
      public_key_from_cert_der
  own_key_passes cert c {k} is_cert has_key p =
      let p₁ =
        sym (ap (λ o. or_err o "invalid certificate" >>= λ d. verify_cert_from_cert d none) is_cert)
        ∙ p in
      let (_, valid, signed) = >>=-eq-ok (require (x.is_valid c) "Time validity error") _ p₁ in
      rw
        (
          is_cert,
          require-ok _ valid,
          has_key,
          x.pem_read-encode (x.raw (x.subject_pki c)),
          x.spki_from_der-raw (x.subject_pki c),
          has_key,
          ==-refl ⦃eq = x.same_key⦄ k,
          require-ok _ signed,
        )
        (refl, refl)
