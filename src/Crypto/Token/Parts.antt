-- ===== src/Crypto/Token/Parts.antt =====
-- A generated token taken apart, and verified up to the check of its salt.
use magic_share.Base.{◌≡◌, ap, ◌∙◌, [], ◌∷◌, ◌++◌, number_eq, list_eq, ==-refl, Result, ok, arith}
use magic_share.Crypto.{Bytes, Base64, Ed25519}
use magic_share.Crypto.Text.{split, split_plain, split-append}
use magic_share.Crypto.Token.{
  Run, ed25519_name, sha256_name, dot, to_verifying_key, generate_token_nonce, check_digest,
  after_salt, verify_parts, verify_token_with_result,
}

module _ (b64 : Base64) (sha256 : Bytes → Bytes) (ed : Ed25519) (key : ed.SigningKey)
    (salt : Bytes) where
  open b64 use {encode, decode, decode-encode, encode-Plain}
  open ed use {verifying_key, to_public_key_der, sign, to_bytes, from_slice-to_bytes, verify-sign}

  abbrev pub der : Bytes
  der = to_public_key_der (verifying_key key)

  abbrev pub digest : Bytes
  digest = sha256 (der ++ salt)

  pub split-generate :
      split dot (generate_token_nonce b64 sha256 ed key salt)
      ≡ sha256_name
        ∷ encode digest
        ∷ encode salt
        ∷ ed25519_name
        ∷ encode (to_bytes (sign key digest))
        ∷ []
  unfolding generate_token_nonce
  split-generate =
      split-append dot sha256_name _ (omega arith)
      ∙ ap (◌∷◌ sha256_name) (
          split-append dot (encode digest) _ (encode-Plain digest)
          ∙ ap (◌∷◌ (encode digest)) (
              split-append dot (encode salt) _ (encode-Plain salt)
              ∙ ap (◌∷◌ (encode salt)) (
                  split-append dot ed25519_name _ (omega arith)
                  ∙ ap (◌∷◌ ed25519_name) (split_plain dot _ (encode-Plain _)))))

  signature_accepted :
      check_digest b64 sha256
        (to_verifying_key ed key)
        (encode digest)
        (encode (to_bytes (sign key digest)))
        salt
      ≡ ok tt
  unfolding check_digest to_verifying_key
  signature_accepted = rw (
    ==-refl (encode digest),
    decode-encode (to_bytes (sign key digest)),
    from_slice-to_bytes (sign key digest),
    verify-sign key digest,
  )

  -- The verifying key accepts a token of its own signing key as far as the check of the salt.
  pub verify-generate :
      (vs : Bytes → Run (Result (Unit {0})))
      → verify_token_with_result b64 sha256
          (to_verifying_key ed key)
          (generate_token_nonce b64 sha256 ed key salt)
          vs
        ≡ after_salt (vs salt) (ok tt)
  unfolding verify_token_with_result to_verifying_key
  verify-generate vs =
      rw (split-generate, verify_token_with_result)
        (rw (decode-encode salt, verify_parts) (ap (after_salt (vs salt)) signature_accepted))
