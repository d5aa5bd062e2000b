-- ===== src/Bridge/Connect.antt =====
-- app/rust/src/api/webrtc.rs: `connect`, by which an app comes to a signaling
-- connection.
pub mod Reports
mod Examples
use magic_share.Base.{
  ℕ, Bool, true, false, String, Option, none, some, List, [], ◌∷◌, map, Result, ok, err, ◌>>=◌,
  number_eq, list_eq, ◌==◌, if◌then◌else◌,
}
use magic_share.Crypto.{Bytes, Text, Base64, Ed25519}
use magic_share.Crypto.Token.{generate_token_timestamp}
use magic_share.Signaling.{DeviceType, ClientInfoWithoutId, WsServerMessage}
use magic_share.Signaling.Client.{Callbacks, Connection, Event, run}
use magic_share.Signaling.Connect.{Connecting, connected, failed, panicked, waiting}

pub record ProposingClientInfo : Type 0 where
  pub alias : String
  pub version : String
  pub device_model : Option String
  pub device_type : Option DeviceType

-- How the app's call of `connect` comes out: whether `on_connection` was called with a connection
-- and what the sink was given; a panic; or it does not return.
pub data Ended : Type 0 where
  returned : Bool → List (Result WsServerMessage) → Ended
  panics waits : Ended

-- A text as a `String`.
module _ (b64 : Base64) (sha256 : Bytes → Bytes) (ed : Ed25519) (spell : Text → String) where
  abbrev pub with_token : ProposingClientInfo → Text → ClientInfoWithoutId
  with_token info token = record {
    alias = info.alias;
    version = info.version;
    device_model = info.device_model;
    device_type = info.device_type;
    token = spell token;
  }

  -- `ProposingClientInfo::sign`, at a given time
  unfoldable pub sign : ed.SigningKey → Result ℕ → ProposingClientInfo → Result ClientInfoWithoutId
  sign key now info =
      generate_token_timestamp b64 sha256 ed key now >>= λ token. ok (with_token info token)

  module _ (cbs : Callbacks) where
    -- `start_listener`: the connection that the app gets.
    abbrev pub start_listener : Connection cbs
    start_listener = record {
      tx = [];
      writing = true;
      on_answer = [];
      called = [];
      forwarded = [];
      listening = true;
      running = true;
    }

    -- `meanwhile` is what happens to the connection, with the messages of the server in it.
    unfoldable pub relay : (List WsServerMessage → List (Event cbs)) → Connecting → Ended
    relay meanwhile (connected client rx) =
        returned true (map ok (run cbs (meanwhile rx) start_listener).forwarded)
    relay meanwhile (failed e) = returned false (err e ∷ [])
    relay meanwhile panicked = panics
    relay meanwhile waiting = waits

    unfoldable pub connect_signed :
        (ClientInfoWithoutId → Connecting)
        → (List WsServerMessage → List (Event cbs))
        → Result ClientInfoWithoutId
        → Ended
    connect_signed connecting meanwhile (err e) = returned false (err "Invalid client info" ∷ [])
    connect_signed connecting meanwhile (ok info) = relay meanwhile (connecting info)

    unfoldable pub connect_with :
        (ClientInfoWithoutId → Connecting)
        → (List WsServerMessage → List (Event cbs))
        → ProposingClientInfo
        → Result ℕ
        → Result ed.SigningKey
        → Ended
    connect_with connecting meanwhile info now (err e) =
        returned false (err "Invalid private key" ∷ [])
    connect_with connecting meanwhile info now (ok key) =
        connect_signed connecting meanwhile (sign key now info)

    -- `connect`; `parse_private_key` is the ed25519 crate's reading of PEM.
    unfoldable pub connect :
        (Text → Result ed.SigningKey)
        → (ClientInfoWithoutId → Connecting)
        → (List WsServerMessage → List (Event cbs))
        → ProposingClientInfo
        → Result ℕ
        → Text
        → Ended
    connect parse_private_key connecting meanwhile info now private_key =
        connect_with connecting meanwhile info now (parse_private_key private_key)
