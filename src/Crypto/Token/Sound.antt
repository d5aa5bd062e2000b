-- ===== src/Crypto/Token/Sound.antt =====
-- What an accepted token shows, and which tokens make the verification panic.
use magic_share.Base.{
  ◌<◌, ◌≡◌, refl, ◌↔◌, ap, ◌∙◌, Bool, true, false, Option, none, some, List, [], ◌∷◌, ◌++◌,
  number_eq, list_eq, ◌==◌, Result, ok, err, >>=-eq-ok, String, is_ok, arith, length, inl, inr,
  Bool-cases, list_test_iff,
}
use magic_share.Crypto.{Bytes, Text, Base64}
use magic_share.Crypto.Text.{split}
use magic_share.Crypto.Token.{
  Run, ret, panic, map_run, VerifyingTokenKey, or_err, require, replace_err, sha256_name, dot,
  check_digest, check_salt, verify_parts, verify_token_with_result, verify_token_nonce,
}

require-eq-ok : (b : Bool) (e : String) {u : Unit {0}} → require b e ≡ ok u → b ≡ true
require-eq-ok true e h = refl
require-eq-ok false e h = cc

or_err-eq-ok : {A : Type 0} (o : Option A) (e : String) {a : A} → or_err o e ≡ ok a → o ≡ some a
or_err-eq-ok none e h = cc
or_err-eq-ok (some a) e h = cc

replace_err-eq-ok :
    (r : Result (Unit {0})) (e : String) {u : Unit {0}} → replace_err r e ≡ ok u → r ≡ ok tt
replace_err-eq-ok (ok u) e h = refl
replace_err-eq-ok (err f) e h = cc

is_ok-ret : (r : Run (Result (Unit {0}))) → map_run is_ok r ≡ ret true → r ≡ ret (ok tt)
is_ok-ret (ret (ok u)) h = refl
is_ok-ret (ret (err e)) h = cc
is_ok-ret panic h = cc

module _ (b64 : Base64) (sha256 : Bytes → Bytes) where
  open b64 use {encode, decode}

  -- The digest of the key and the nonce is the one in the token, and the key accepts the token's
  -- signature of it.
  pub record Genuine (key : VerifyingTokenKey) (nonce hash_base64 signature_base64 : Bytes)
      : Type 0 where
    pub der : Bytes
    pub signature : Bytes
    pub key_der : key.to_der ≡ ok der
    pub hash_matches : encode (sha256 (der ++ nonce)) ≡ hash_base64
    pub signature_decodes : decode signature_base64 ≡ some signature
    pub signed : key.verify (sha256 (der ++ nonce)) signature ≡ ok tt

  digest-Genuine :
      (key : VerifyingTokenKey) (hash_base64 signature_base64 nonce : Bytes)
      → check_digest b64 sha256 key hash_base64 signature_base64 nonce ≡ ok tt
      → Genuine key nonce hash_base64 signature_base64
  unfolding check_digest
  digest-Genuine key hash_base64 signature_base64 nonce h =
      let (der, e, h1) = >>=-eq-ok key.to_der _ h in
      let (_, hash, h2) =
        >>=-eq-ok (require (encode (sha256 (der ++ nonce)) == hash_base64) _) _ h1 in
      let (signature, s, h3) = >>=-eq-ok (or_err (decode signature_base64) _) _ h2 in
      record {
        der = der;
        signature = signature;
        key_der = e;
        hash_matches = (list_test_iff _ _).0 (require-eq-ok _ _ hash);
        signature_decodes = or_err-eq-ok _ _ s;
        signed = replace_err-eq-ok (key.verify (sha256 (der ++ nonce)) signature) _ h3;
      }

  -- A token in the form of the protocol: the method of the hash, the hash, the nonce, the method
  -- of the key, and the signature. More parts are not looked at.
  pub record Accepted (key : VerifyingTokenKey) (token : Text) (nonce : Bytes) : Type 0 where
    pub hash_base64 : Text
    pub salt_base64 : Text
    pub signature_base64 : Text
    pub rest : List Text
    pub parts :
        split dot token
        ≡ sha256_name ∷ hash_base64 ∷ salt_base64 ∷ key.signature_method ∷ signature_base64 ∷ rest
    pub salt_decodes : decode salt_base64 ≡ some nonce
    pub genuine : Genuine key nonce hash_base64 signature_base64

  nonce_salt : Bytes → Bytes → Run (Result (Unit {0}))
  nonce_salt nonce salt = ret (require (salt == nonce) "Invalid nonce")

  salt-Genuine :
      (key : VerifyingTokenKey) (hash_base64 signature_base64 nonce : Bytes) (o : Option Bytes)
      → check_salt b64 sha256 key hash_base64 signature_base64 (nonce_salt nonce) o ≡ ret (ok tt)
      → (o ≡ some nonce) × Genuine key nonce hash_base64 signature_base64
  unfolding check_salt nonce_salt
  salt-Genuine key hash_base64 signature_base64 nonce none h = cc
  salt-Genuine key hash_base64 signature_base64 nonce (some salt) h =
      elim (Bool-cases (salt == nonce)) [
        | inl e ↦
            let same : salt ≡ nonce = (list_test_iff salt nonce).0 e in
            let done : ret (check_digest b64 sha256 key hash_base64 signature_base64 salt)
                ≡ ret (ok tt) =
              rw e at h in
            (ap some same, rw same at (digest-Genuine key hash_base64 signature_base64 salt (cc)))
        | inr e ↦ let failed : ret (err "Invalid nonce") ≡ ret (ok tt) = rw e at h in cc
      ]

  parts-Accepted :
      (key : VerifyingTokenKey) (token : Text) (nonce : Bytes) (parts : List Text)
      → split dot token ≡ parts
      → verify_parts b64 sha256 key (nonce_salt nonce) parts ≡ ret (ok tt)
      → Accepted key token nonce
  unfolding verify_parts
  parts-Accepted key token nonce [] e h = cc
  parts-Accepted key token nonce (a ∷ []) e h = cc
  parts-Accepted key token nonce (a ∷ b ∷ []) e h = cc
  parts-Accepted key token nonce (a ∷ b ∷ c ∷ []) e h = cc
  parts-Accepted key token nonce (a ∷ b ∷ c ∷ d ∷ []) e h = cc
  parts-Accepted key token nonce (a ∷ b ∷ c ∷ d ∷ f ∷ rest) e h =
      elim (Bool-cases (a == sha256_name)) [
        | inl x ↦ elim (Bool-cases (d == key.signature_method)) [
          | inl y ↦
              let (salt, genuine) = salt-Genuine key b f nonce (decode c) (rw (x, y) at h) in
              record {
                hash_base64 = b;
                salt_base64 = c;
                signature_base64 = f;
                rest = rest;
                parts =
                    e
                    ∙ cc (
                      (list_test_iff a sha256_name).0 x,
                      (list_test_iff d key.signature_method).0 y,
                    );
                salt_decodes = salt;
                genuine = genuine;
              }
          | inr y ↦
              let failed : ret (err "Invalid sign method") ≡ ret (ok tt) = rw (x, y) at h in cc
        ]
        | inr x ↦ let failed : ret (err "Invalid hash method") ≡ ret (ok tt) = rw x at h in cc
      ]

  parts_panic :
      (key : VerifyingTokenKey) (nonce : Bytes) (parts : List Text)
      → (map_run is_ok (verify_parts b64 sha256 key (nonce_salt nonce) parts) ≡ panic)
        ↔ (length parts < 5)
  unfolding verify_parts nonce_salt check_salt
  parts_panic key nonce [] = (λ h. omega arith, λ h. refl)
  parts_panic key nonce (a ∷ []) = (λ h. omega arith, λ h. refl)
  parts_panic key nonce (a ∷ b ∷ []) = (λ h. omega arith, λ h. refl)
  parts_panic key nonce (a ∷ b ∷ c ∷ []) = (λ h. omega arith, λ h. refl)
  parts_panic key nonce (a ∷ b ∷ c ∷ d ∷ []) = (λ h. omega arith, λ h. refl)
  parts_panic key nonce (a ∷ b ∷ c ∷ d ∷ f ∷ rest) =
      (λ h. absurd (ground arith), λ h. absurd (omega arith))

  -- Only a token of the protocol's form is accepted, whose salt is the expected nonce, whose hash
  -- is that of the key and the nonce, and whose signature of the hash the key accepts.
  pub verify_nonce_sound :
      (key : VerifyingTokenKey) (token : Text) (nonce : Bytes)
      → verify_token_nonce b64 sha256 key token nonce ≡ ret true
      → Accepted key token nonce
  unfolding verify_token_nonce verify_token_with_result nonce_salt
  verify_nonce_sound key token nonce h =
      parts-Accepted key token nonce (split dot token) refl (is_ok-ret _ h)

  -- The verification panics on exactly the tokens of fewer than five parts, whatever the key.
  pub verify_nonce-panics :
      (key : VerifyingTokenKey) (token : Text) (nonce : Bytes)
      → (verify_token_nonce b64 sha256 key token nonce ≡ panic) ↔ (length (split dot token) < 5)
  unfolding verify_token_nonce verify_token_with_result nonce_salt
  verify_nonce-panics key token nonce = parts_panic key nonce (split dot token)
