-- ===== src/Crypto.antt =====
-- core/src/crypto and core/src/util: what they use of the crates behind them, as interfaces, and
-- the nonces of core/src/crypto/nonce.rs.
pub mod Text
pub mod Token
pub mod Cert
use magic_share.Base.{ℕ, ◌≡◌, ◌≢◌, Bool, true, ◌&&◌, Option, some, List, [], ◌∷◌, leb, length, All}

abbrev pub Bytes : Type 0
Bytes = List ℕ

abbrev pub Text : Type 0
Text = List ℕ

-- `URL_SAFE_NO_PAD` of the crate base64: its alphabet has no full stop.
pub record Base64 : Type 0 where
  pub encode : Bytes → Text
  pub decode : Text → Option Bytes
  pub decode-encode : (b : Bytes) → decode (encode b) ≡ some b
  pub encode-Plain : (b : Bytes) → All (λ c. c ≢ b'.') (encode b)

-- ed25519-dalek: a signature of a key is accepted by its verifying key.
pub record Ed25519 : Type 1 where
  pub SigningKey : Type 0
  pub VerifyingKey : Type 0
  pub Signature : Type 0
  pub verifying_key : SigningKey → VerifyingKey
  pub to_public_key_der : VerifyingKey → Bytes
  pub sign : SigningKey → Bytes → Signature
  pub to_bytes : Signature → Bytes
  pub from_slice : Bytes → Option Signature
  pub verify : VerifyingKey → Bytes → Signature → Bool
  pub from_slice-to_bytes : (s : Signature) → from_slice (to_bytes s) ≡ some s
  pub verify-sign :
      (k : SigningKey) (msg : Bytes) → verify (verifying_key k) msg (sign k msg) ≡ true

-- `validate_nonce`
unfoldable pub validate_nonce : Bytes → Bool
validate_nonce nonce = leb 16 (length nonce) && leb (length nonce) 128
