-- ===== src/Signaling/Connect.antt =====
-- core/src/webrtc/signaling.rs `SignalingConnection::connect`: a socket to the signaling server,
-- and its reader up to and after the server's greeting. The reader's messages wait in channels
-- that hold one each.
pub mod Greeting
mod Examples
use magic_share.Base.{
  ℕ, zero, suc, List, [], ◌∷◌, ◌++◌, String, Result, ok, err, codes, Option, none, some, Bool,
  if◌then◌else◌,
}
use magic_share.Crypto.{Bytes, Text, Base64}
use magic_share.Signaling.{ClientInfo, ClientInfoWithoutId, WsServerMessage}

-- serde_json at the two types, and `str::as_bytes`.
pub record Wire : Type 0 where
  pub info_to_string : ClientInfoWithoutId → Result Text
  pub from_str : Text → Result WsServerMessage
  pub as_bytes : Text → Bytes

-- What a socket yields: a text, or a frame of another kind or an error.
pub data Frame : Type 0 where
  text : Text → Frame
  other : Frame

-- What a socket has yielded, and whether it was closed then or stays open and silent.
pub record Socket : Type 0 where
  pub frames : List Frame
  pub closed : Bool

-- How a call of `connect` comes out: with the client and with what `rx` will yield, with an error,
-- with a panic at `client_rx.recv().await.unwrap()`, or not at all.
pub data Connecting : Type 0 where
  connected : ClientInfo → List WsServerMessage → Connecting
  failed : String → Connecting
  panicked waiting : Connecting

abbrev pub waiting_list : Option WsServerMessage → List WsServerMessage
waiting_list none = []
waiting_list (some m) = m ∷ []

abbrev pub keep : Result WsServerMessage → List WsServerMessage → List WsServerMessage
keep (ok m) ms = m ∷ ms
keep (err e) ms = ms

-- The reader behind the first Hello. Another Hello is passed on only if `client_rx` is still
-- there, which `late` of them find.
unfoldable pub read_on : ℕ → List WsServerMessage → List WsServerMessage
read_on late [] = []
read_on zero (WsServerMessage.hello c peers ∷ ms) = read_on zero ms
read_on (suc late) (WsServerMessage.hello c peers ∷ ms) =
    WsServerMessage.hello c peers ∷ read_on late ms
read_on late (m ∷ ms) = m ∷ read_on late ms

-- The reader up to the first Hello: nothing is taken out of `receive_rx`, so a second message
-- waits for room for ever. At the end of a closed socket the reader drops `client_tx`.
unfoldable pub greet : ℕ → Bool → Option WsServerMessage → List WsServerMessage → Connecting
unfolding read_on
greet late closed held [] = if closed then panicked else waiting
greet late closed held (WsServerMessage.hello c peers ∷ ms) =
    connected c (waiting_list held ++ WsServerMessage.hello c peers ∷ read_on late ms)
greet late closed none (m ∷ ms) = greet late closed (some m) ms
greet late closed (some first) (m ∷ ms) = waiting

module _ (wire : Wire) (b64 : Base64) where
  open wire use {info_to_string, from_str, as_bytes}

  -- The texts that parse; what does not is logged.
  unfoldable pub parsed : List Frame → List WsServerMessage
  parsed [] = []
  parsed (other ∷ frames) = parsed frames
  parsed (text t ∷ frames) = keep (from_str t) (parsed frames)

  abbrev pub uri_with : Text → Text → Text
  uri_with uri encoded_info = uri ++ codes "?d=" ++ encoded_info

  unfoldable pub read_frames : ℕ → Result Socket → Connecting
  read_frames late (err e) = failed e
  read_frames late (ok socket) = greet late socket.closed none (parsed socket.frames)

  unfoldable pub connect_info : ℕ → (Text → Result Socket) → Text → Result Text → Connecting
  connect_info late connect_async uri (err e) = failed e
  connect_info late connect_async uri (ok info) =
      read_frames late (connect_async (uri_with uri (b64.encode (as_bytes info))))

  -- `connect_async` opens a socket, and what it returns is what the socket will have yielded.
  unfoldable pub connect : ℕ → (Text → Result Socket) → Text → ClientInfoWithoutId → Connecting
  connect late connect_async uri info = connect_info late connect_async uri (info_to_string info)
