-- ===== src/Crypto/Token.antt =====
-- core/src/crypto/token.rs: tokens that prove the possession of a key.
mod Parts
pub mod Sound
pub mod Roundtrip
pub mod Examples
use magic_share.Base.{
  ℕ, suc, ◌+◌, ◌-◌, ◌%◌, ◌^◌, ◌≡◌, Bool, true, false, not, ◌&&◌, Option, none, some, List, [], ◌∷◌,
  ◌++◌, String, number_eq, list_eq, ◌==◌, eqb, ltb, leb, if◌then◌else◌, length, codes, Result, ok,
  err, ◌>>=◌, is_ok,
}
use magic_share.Crypto.{Bytes, Text, Base64, Ed25519}
use magic_share.Crypto.Text.{split, to_le_bytes, from_le_bytes}

-- A call returns, or panics.
pub data Run (A : Type 0) : Type 0 where
  ret : A → Run A
  panic : Run A

abbrev pub map_run : {A B : Type 0} → (A → B) → Run A → Run B
map_run f (ret a) = ret (f a)
map_run f panic = panic

-- The trait `VerifyingTokenKey`.
pub record VerifyingTokenKey : Type 0 where
  pub verify : Bytes → Bytes → Result (Unit {0})
  pub to_der : Result Bytes
  pub signature_method : Text

-- `?` and `map_err` on an outcome that is only there or not.
abbrev pub or_err {ℓ} : {A : Type ℓ} → Option A → String → Result A
or_err none e = err e
or_err (some a) e = ok a

abbrev pub require : Bool → String → Result (Unit {0})
require true e = ok tt
require false e = err e

abbrev pub replace_err {ℓ} : {A : Type ℓ} → Result A → String → Result A
replace_err (ok a) e = ok a
replace_err (err _) e = err e

abbrev pub ed25519_name : Text
ed25519_name = codes "ed25519"

abbrev pub rsa_pss_name : Text
rsa_pss_name = codes "rsa-pss"

abbrev pub sha256_name : Text
sha256_name = codes "sha256"

abbrev pub dot : ℕ
dot = b'.'

-- `extract_signature_identifier`
pub extract_signature_identifier : Text → Option Text
extract_signature_identifier token = fourth (split dot token)
  where
    fourth : List Text → Option Text
    fourth (a ∷ b ∷ c ∷ d ∷ rest) = some d
    fourth _ = none

-- The build: whether integer overflow panics, as in a debug build, or wraps.
pub data Overflow : Type 0 where
  panics wraps : Overflow

module _ (ed : Ed25519) where
  open ed use {VerifyingKey, SigningKey, verifying_key, to_public_key_der, from_slice}

  -- `VerifyingTokenKey for Ed25519VerifyingKey`
  pub ed25519_key : VerifyingKey → VerifyingTokenKey
  ed25519_key key = record {
    verify = λ msg signature. or_err (from_slice signature) "malformed signature" >>= λ s.
        require (ed.verify key msg s) "signature error";
    to_der = ok (to_public_key_der key);
    signature_method = ed25519_name;
  }

  pub to_verifying_key : SigningKey → VerifyingTokenKey
  unfolding ed25519_key
  to_verifying_key key = ed25519_key (verifying_key key)

-- `?` on the check of the salt, and the rest behind it.
abbrev pub after_salt : Run (Result (Unit {0})) → Result (Unit {0}) → Run (Result (Unit {0}))
after_salt panic rest = panic
after_salt (ret (err e)) rest = ret (err e)
after_salt (ret (ok _)) rest = ret rest

-- `now_seconds - salt > 60 * 60` over `u64`
expired : Overflow → ℕ → ℕ → Run (Result (Unit {0}))
expired mode now salt =
    if ltb now salt
    then (elim mode [
      | panics ↦ panic
      | wraps ↦ ret (require (leb (now + 2 ^ 64 - salt) 3600) "Fingerprint timestamp expired")
    ])
    else ret (require (leb (now - salt) 3600) "Fingerprint timestamp expired")

-- The salt check of `verify_token_timestamp`
timestamp_salt : Overflow → Result ℕ → Bytes → Run (Result (Unit {0}))
unfolding expired
timestamp_salt mode now salt =
    if not (eqb (length salt) 8)
    then ret (err "Invalid salt length")
    else (elim now [ err e ↦ ret (err e) | ok seconds ↦ expired mode seconds (from_le_bytes salt) ])

module _ (b64 : Base64) (sha256 : Bytes → Bytes) where
  open b64 use {encode, decode}

  module _ (ed : Ed25519) where
    open ed use {SigningKey, verifying_key, to_public_key_der, sign, to_bytes}

    -- `generate_token_nonce`
    pub generate_token_nonce : SigningKey → Bytes → Text
    generate_token_nonce key salt =
        let digest = sha256 (to_public_key_der (verifying_key key) ++ salt) in
        sha256_name
        ++ dot
          ∷ (encode digest
              ++ dot
                ∷ (encode salt
                    ++ dot ∷ (ed25519_name ++ dot ∷ encode (to_bytes (sign key digest)))))

    -- `generate_token_timestamp`, at a given time
    unfoldable pub generate_token_timestamp : SigningKey → Result ℕ → Result Text
    unfolding generate_token_nonce
    generate_token_timestamp key now =
        now >>= λ seconds. ok (generate_token_nonce key (to_le_bytes 8 seconds))

  -- From the tests on the methods to the signature. A salt's check may panic.
  check_digest : VerifyingTokenKey → Text → Text → Bytes → Result (Unit {0})
  check_digest key hash_base64 signature_base64 salt = key.to_der >>= λ der.
      let digest = sha256 (der ++ salt) in
      require (encode digest == hash_base64) "Hash mismatch" >>= λ _.
      or_err (decode signature_base64) "Invalid signature base64 encoding" >>= λ signature.
      replace_err (key.verify digest signature) "Invalid signature"

  check_salt :
      VerifyingTokenKey
      → Text
      → Text
      → (Bytes → Run (Result (Unit {0})))
      → Option Bytes
      → Run (Result (Unit {0}))
  check_salt key hash_base64 signature_base64 verify_salt none = ret (err "Invalid base64")
  check_salt key hash_base64 signature_base64 verify_salt (some salt) =
      after_salt (verify_salt salt) (check_digest key hash_base64 signature_base64 salt)

  -- Slicing `parts[0..5]` panics on fewer than five parts; the pattern behind it always fits.
  verify_parts :
      VerifyingTokenKey → (Bytes → Run (Result (Unit {0}))) → List Text → Run (Result (Unit {0}))
  unfolding check_salt check_digest
  verify_parts key verify_salt
        (hash_method ∷ hash_base64 ∷ salt_base64 ∷ sign_method ∷ signature_base64 ∷ _) =
      if not (hash_method == sha256_name)
      then ret (err "Invalid hash method")
      else if not (sign_method == key.signature_method)
      then ret (err "Invalid sign method")
      else check_salt key hash_base64 signature_base64 verify_salt (decode salt_base64)
  verify_parts key verify_salt _ = panic

  -- `verify_token_with_result`
  pub verify_token_with_result :
      VerifyingTokenKey → Text → (Bytes → Run (Result (Unit {0}))) → Run (Result (Unit {0}))
  unfolding verify_parts
  verify_token_with_result key token verify_salt = verify_parts key verify_salt (split dot token)

  -- `verify_token_nonce`
  pub verify_token_nonce : VerifyingTokenKey → Text → Bytes → Run Bool
  verify_token_nonce key token nonce =
      map_run is_ok
        (verify_token_with_result key token λ salt. ret (require (salt == nonce) "Invalid nonce"))

  -- `verify_token_timestamp`, at a given time
  pub verify_token_timestamp : Overflow → VerifyingTokenKey → Text → Result ℕ → Run Bool
  unfolding timestamp_salt
  verify_token_timestamp mode key token now =
      map_run is_ok (verify_token_with_result key token (timestamp_salt mode now))
