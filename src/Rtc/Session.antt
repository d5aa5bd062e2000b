-- ===== src/Rtc/Session.antt =====
-- The crates behind a session, and the steps that both peers take.
pub mod Sender
pub mod Carried
pub mod Keeps
pub mod Taken
pub mod Streams
pub mod Agreed
pub mod Whole
pub mod Toy
pub mod ToyJson
pub mod Examples
pub mod Receiver
use magic_share.Base.{
  Bool, true, false, String, Option, none, some, List, [], ◌∷◌, text_eq, number_eq, list_eq, ◌==◌,
  if◌then◌else◌, Result, ok, err,
}
use magic_share.Exec.{Exec, pure, fail, ◌>>=◌, ◌>>◌}
use magic_share.Crypto.{Base64, Ed25519}
use magic_share.Crypto.Token.{
  VerifyingTokenKey, Run, ret, panic, ed25519_key, ed25519_name, rsa_pss_name, verify_token_nonce,
  or_err,
}
use magic_share.Rtc.{Bytes, DataChannelMessage, delimiter}
use magic_share.Rtc.Chunks.{send_string_in_chunks, receive_string_from_chunks}
use magic_share.Rtc.Io.{Io, Text, send, recv, or_fail}
use magic_share.Rtc.Messages.{Json}
use magic_share.Rtc.Transfer.{send_piece}

pub record Crates : Type 1 where
  pub json : Json
  pub b64 : Base64
  pub sha256 : Bytes → Bytes
  pub ed : Ed25519
  -- `from_public_key_pem` of ed25519-dalek and of rsa, the latter wrapped as in token.rs.
  pub ed25519_from_pem : Text → Option ed.VerifyingKey
  pub rsa_from_pem : Text → Option VerifyingTokenKey

-- `?` on a value that is at hand
abbrev pub lift : {A : Type 0} → Result A → Exec Io A
lift (ok a) = pure a
lift (err e) = fail e

-- What a test returns decides; a panic ends the task.
abbrev pub decide : Run Bool → String → Exec Io (Unit {0})
decide (ret true) e = pure tt
decide (ret false) e = fail e
decide panic e = fail "task panicked"

expect_text : String → Option DataChannelMessage → Exec Io Bytes
expect_text missing none = fail missing
expect_text missing (some msg) =
    if msg.is_string then pure msg.payload else fail "Expected string message"

-- A text message, which `missing` is said to be where the stream has ended.
pub receive_text : String → Exec Io Bytes
unfolding expect_text
receive_text missing = recv >>= expect_text missing

-- `send_string_in_chunks`, and `send_delimiter` behind it
pub send_whole : Bytes → Exec Io (Unit {0})
send_whole string = send_string_in_chunks tt string send_piece >> send delimiter

-- `receive_string_from_chunks`
pub receive_whole : Exec Io Bytes
receive_whole io =
    let (bytes, rest) = receive_string_from_chunks io.inbox in
    (ok bytes, record io { inbox = rest })

module _ (c : Crates) where
  -- `parse_public_key`
  pub parse_public_key : Text → Text → Result VerifyingTokenKey
  parse_public_key public_key identifier =
      if identifier == ed25519_name
      then or_err (map_key (c.ed25519_from_pem public_key)) "malformed public key"
      else if identifier == rsa_pss_name
      then or_err (c.rsa_from_pem public_key) "malformed public key"
      else err "Unsupported key type"
    where
      map_key : Option c.ed.VerifyingKey → Option VerifyingTokenKey
      map_key none = none
      map_key (some key) = some (ed25519_key c.ed key)

  pub verify_token : VerifyingTokenKey → Text → Bytes → Exec Io (Unit {0})
  verify_token key token nonce =
      decide (verify_token_nonce c.b64 c.sha256 key token nonce) "Invalid token signature or nonce"

  -- `if let Some(expecting_public_key)`
  pub verify_expected : Option VerifyingTokenKey → Text → Bytes → Exec Io (Unit {0})
  unfolding verify_token
  verify_expected none token nonce = pure tt
  verify_expected (some key) token nonce = verify_token key token nonce
