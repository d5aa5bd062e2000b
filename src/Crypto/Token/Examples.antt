-- ===== src/Crypto/Token/Examples.antt =====
-- The theorems on tokens at toy crates: a byte is encoded as its value plus 47, and a signature is
-- the key in front of the message.
use magic_share.Base.{
  ℕ, ◌+◌, ◌-◌, ◌<◌, ◌≡◌, refl, ap, ap₂, ◌≢◌, ◌↔◌, true, some, [], ◌∷◌, map, number_eq, list_eq,
  ◌==◌, ==-refl, ok, arith, length, All,
}
use magic_share.Crypto.{Bytes, Text, Base64, Ed25519}
use magic_share.Crypto.Text.{split, to_le_bytes}
use magic_share.Crypto.Token.{
  ret, panic, wraps, VerifyingTokenKey, to_verifying_key, generate_token_nonce,
  generate_token_timestamp, verify_token_nonce, verify_token_timestamp, dot,
}
use magic_share.Crypto.Token.Sound.{Accepted, verify_nonce_sound, verify_nonce-panics}
use magic_share.Crypto.Token.Roundtrip.{verify_nonce-generate, verify_timestamp-generate}

shift_back : (b : Bytes) → map (λ x. x - 47) (map (λ x. x + 47) b) ≡ b
shift_back [] = refl
shift_back (x ∷ b) = ap₂ ◌∷◌ (omega arith) (shift_back b)

shift_plain : (b : Bytes) → All (λ c. c ≢ b'.') (map (λ x. x + 47) b)
shift_plain [] = tt
shift_plain (x ∷ b) = (omega arith, shift_plain b)

abbrev toy_base64 : Base64
toy_base64 = record {
  encode = map (λ x. x + 47);
  decode = λ t. some (map (λ x. x - 47) t);
  decode-encode = λ b. ap some (shift_back b);
  encode-Plain = shift_plain;
}

abbrev pub toy_ed : Ed25519
toy_ed = record {
  SigningKey = ℕ;
  VerifyingKey = ℕ;
  Signature = Bytes;
  verifying_key = λ k. k;
  to_public_key_der = λ k. k ∷ [];
  sign = λ k m. k ∷ m;
  to_bytes = λ s. s;
  from_slice = some;
  verify = λ k m s. s == k ∷ m;
  from_slice-to_bytes = λ s. refl;
  verify-sign = λ k m. ==-refl (k ∷ m);
}

abbrev toy_hash : Bytes → Bytes
toy_hash b = b

abbrev key : VerifyingTokenKey
key = to_verifying_key toy_ed 7

abbrev nonce : Bytes
nonce = 1 ∷ 2 ∷ []

abbrev token : Text
token = generate_token_nonce toy_base64 toy_hash toy_ed 7 nonce

verify_nonce-generate_example : verify_token_nonce toy_base64 toy_hash key token nonce ≡ ret true
verify_nonce-generate_example = verify_nonce-generate toy_base64 toy_hash toy_ed 7 nonce nonce

verify_nonce_sound_example : Accepted toy_base64 toy_hash key token nonce
verify_nonce_sound_example =
    verify_nonce_sound toy_base64 toy_hash key token nonce
      (verify_nonce-generate toy_base64 toy_hash toy_ed 7 nonce nonce)

verify_nonce-panics_example :
    (verify_token_nonce toy_base64 toy_hash key (b'a' ∷ dot ∷ b'b' ∷ []) nonce ≡ panic)
    ↔ (length (split dot (b'a' ∷ dot ∷ b'b' ∷ [])) < 5)
verify_nonce-panics_example =
    verify_nonce-panics toy_base64 toy_hash key (b'a' ∷ dot ∷ b'b' ∷ []) nonce

verify_timestamp-generate_example :
    verify_token_timestamp toy_base64 toy_hash wraps key
      (generate_token_nonce toy_base64 toy_hash toy_ed 7 (to_le_bytes 8 1000))
      (ok 4600)
    ≡ ret true
verify_timestamp-generate_example =
    verify_timestamp-generate toy_base64 toy_hash toy_ed 7 wraps 1000 4600
      (generate_token_nonce toy_base64 toy_hash toy_ed 7 (to_le_bytes 8 1000)) (omega arith)
      (unfold generate_token_timestamp in refl)
