-- ===== src/Crypto/Cert/Examples.antt =====
-- Certificates at a toy of the crates: a certificate is its key, and PEM is the bytes themselves.
use magic_share.Base.{◌≡◌, refl, true, some, none, [], list_eq, number_eq, codes, ok, err}
use magic_share.Crypto.{Bytes, Text}
use magic_share.Crypto.Cert.{
  X509, verify_cert_from_der, verify_cert_from_cert, check_public_key, expected_public_key,
}

abbrev pub bare_keys : X509
bare_keys = record {
  Certificate = Bytes;
  SubjectPublicKeyInfo = Bytes;
  PublicKey = Bytes;
  same_key = list_eq;
  from_der = some;
  is_valid = λ c. true;
  verify_signature = λ c. true;
  subject_pki = λ c. c;
  raw = λ k. k;
  spki_from_der = some;
  parsed = some;
  pem_read = some;
  pem_encode = λ b. b;
  pem_read-encode = λ b. refl;
  spki_from_der-raw = λ k. refl;
}

abbrev pub key : Text
key = codes "key"

mismatch : verify_cert_from_der bare_keys key (some []) ≡ err "Public key mismatch"
unfolding verify_cert_from_der verify_cert_from_cert check_public_key expected_public_key
mismatch = refl

passes : verify_cert_from_der bare_keys key (some key) ≡ ok tt
unfolding verify_cert_from_der verify_cert_from_cert check_public_key expected_public_key
passes = refl

pub passes_unpinned : verify_cert_from_der bare_keys key none ≡ ok tt
unfolding verify_cert_from_der verify_cert_from_cert check_public_key
passes_unpinned = refl
