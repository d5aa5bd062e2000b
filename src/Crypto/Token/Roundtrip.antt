-- ===== src/Crypto/Token/Roundtrip.antt =====
-- Tokens verify under the key that signed them, for the nonce or the hour that they were made for.
use magic_share.Base.{
  ℕ, ◌+◌, ◌-◌, ◌^◌, ◌<◌, ◌≡◌, ap, ◌∙◌, Bool, some, number_eq, list_eq, ◌==◌, ltb, leb,
  if◌then◌else◌, ok, arith, is_ok,
}
use magic_share.Crypto.{Bytes, Text, Base64, Ed25519}
use magic_share.Crypto.Text.{to_le_bytes, length-to_le_bytes, from_le_bytes-to_le_bytes}
use magic_share.Crypto.Token.{
  Run, ret, panic, map_run, require, Overflow, panics, wraps, to_verifying_key,
  generate_token_nonce, generate_token_timestamp, extract_signature_identifier, ed25519_name,
  timestamp_salt, after_salt, verify_token_nonce, verify_token_timestamp,
}
use magic_share.Crypto.Token.Parts.{split-generate, verify-generate}

module _ (b64 : Base64) (sha256 : Bytes → Bytes) (ed : Ed25519) (key : ed.SigningKey) where
  -- A token made for one nonce verifies, under the key that signed it, for that nonce alone.
  pub verify_nonce-generate :
      (salt nonce : Bytes)
      → verify_token_nonce b64 sha256
          (to_verifying_key ed key)
          (generate_token_nonce b64 sha256 ed key salt)
          nonce
        ≡ ret (salt == nonce)
  unfolding verify_token_nonce
  verify_nonce-generate salt nonce =
      ap (map_run is_ok)
        (verify-generate b64 sha256 ed key salt (λ s. ret (require (s == nonce) "Invalid nonce")))
      ∙ ground arith

  -- A generated token names the method of its signature.
  pub extract-generate :
      (salt : Bytes)
      → extract_signature_identifier (generate_token_nonce b64 sha256 ed key salt)
        ≡ some ed25519_name
  unfolding extract_signature_identifier
  extract-generate salt = rw (split-generate b64 sha256 ed key salt)

  -- What verification at time `now` says of a token of time `made`.
  abbrev pub fresh : Overflow → ℕ → ℕ → Run Bool
  fresh panics now made = if ltb now made then panic else ret (leb (now - made) 3600)
  fresh wraps now made =
      if ltb now made then ret (leb (now + 2 ^ 64 - made) 3600) else ret (leb (now - made) 3600)

  salt_fresh :
      (mode : Overflow) (made now : ℕ)
      → made < 2 ^ 64
      → map_run is_ok (after_salt (timestamp_salt mode (ok now) (to_le_bytes 8 made)) (ok tt))
        ≡ fresh mode now made
  unfolding timestamp_salt
  salt_fresh panics made now fits =
      rw (length-to_le_bytes 8 made, from_le_bytes-to_le_bytes 8 made (omega arith)) (ground arith)
  salt_fresh wraps made now fits =
      rw (length-to_le_bytes 8 made, from_le_bytes-to_le_bytes 8 made (omega arith)) (ground arith)

  -- A token of a `u64` time verifies up to an hour later. Before its time a build that checks
  -- overflow panics, and another compares the wrapped difference.
  pub verify_timestamp-generate :
      (mode : Overflow) (made now : ℕ) (token : Text)
      → made < 2 ^ 64
      → generate_token_timestamp b64 sha256 ed key (ok made) ≡ ok token
      → verify_token_timestamp b64 sha256 mode (to_verifying_key ed key) token (ok now)
        ≡ fresh mode now made
  unfolding verify_token_timestamp generate_token_timestamp
  verify_timestamp-generate mode made now token fits h =
      let salt = to_le_bytes 8 made in
      let made_token : generate_token_nonce b64 sha256 ed key salt ≡ token = cc in
      rw (← made_token) (
        ap (map_run is_ok) (verify-generate b64 sha256 ed key salt (timestamp_salt mode (ok now)))
        ∙ salt_fresh mode made now fits)
