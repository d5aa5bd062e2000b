-- ===== src/Network/Handshake.antt =====
-- A client's `connect` (core/src/webrtc/signaling.rs) over the server's `ws_handler` and
-- `handle_socket` (server/src/controller/ws_controller.rs).
use magic_share.Base.{
  ℕ, ◌≡◌, refl, ap, ◌∙◌, inl, inr, Option, none, some, List, [], ◌∷◌, ◌++◌, Result, ok, err, codes,
  String, true, false, eqb, if◌then◌else◌, arith, Bool-cases,
}
use magic_share.Crypto.{Text, Base64}
use magic_share.Signaling.{Uuid, ClientInfo, ClientInfoWithoutId, client_info, WsServerMessage}
use magic_share.Signaling.Connect.{
  Wire, Frame, Socket, text, connected, panicked, connect, parsed, uri_with, greet,
}
use magic_share.Signaling.Connect.Greeting.{connect_opened}
use magic_share.Server.{
  Limits, Group, Sender, Send, LocalMap, AppState, Admission, limit_reached, admitted, infos,
  broadcast, senders, connect as server_connect,
}
use magic_share.Server.Rooms.{view, admits}
use magic_share.Server.Effects.{Holds, connect-sends}
use magic_share.Server.IpGroup.{IpAddr}
use magic_share.Server.Handler.{Std, HeaderMap, upgraded, peer_info, ws_handler}

-- What is sent to one socket.
abbrev pub sent_to : Sender → List Send → List WsServerMessage
sent_to t [] = []
sent_to t ((u, m) ∷ sends) = let rest = sent_to t sends in if eqb u t then m ∷ rest else rest

abbrev texts : (WsServerMessage → Text) → List WsServerMessage → List Frame
texts write [] = []
texts write (m ∷ ms) = text (write m) ∷ texts write ms

-- What the socket of a new client yields. One that was refused is closed.
abbrev pub replies : (WsServerMessage → Text) → Sender → Admission → Socket
replies write tx limit_reached = record {
  frames = text (codes "Limit reached") ∷ [];
  closed = true;
}
replies write tx (admitted sends) = record {
  frames = texts write (sent_to tx sends);
  closed = false;
}

sent_to-connect :
    (tx : Sender) (m h : WsServerMessage) (l : LocalMap)
    → ¬ Holds l tx
    → sent_to tx (broadcast m (senders l) ++ (tx, h) ∷ []) ≡ h ∷ []
sent_to-connect tx m h [] fresh = ground arith
sent_to-connect tx m h (e ∷ l) fresh = ground (arith, sent_to-connect tx m h l (λ q. fresh (inr q)))

module _ (std : Std) (b64 : Base64) (json : Text → Option ClientInfoWithoutId) (wire : Wire)
    (write : WsServerMessage → Text) where
  peer_info-known :
      (info : ClientInfoWithoutId) (t : Text) (id : Uuid)
      → std.from_utf8 (wire.as_bytes t) ≡ some t
      → json t ≡ some info
      → peer_info std b64 json (b64.encode (wire.as_bytes t)) id ≡ some (client_info info id)
  unfolding peer_info
  peer_info-known info t id utf8 reads = rw (b64.decode-encode, utf8, reads) refl

  upgraded-peer :
      (headers : HeaderMap) (addr : IpAddr) (o : Option ClientInfo) {g : Group}
      {peer found : ClientInfo}
      → o ≡ some found
      → upgraded std b64 json headers addr o ≡ inr (g, peer)
      → peer ≡ found
  upgraded-peer headers addr none e r = cc
  upgraded-peer headers addr (some p) e r = cc

  -- A client asks the server for a socket with its information, on a channel `tx` that is new to
  -- the room. The server takes it for that information under the new id; and if its limits admit
  -- the peer, `connect` returns this peer and a receiver that begins with the server's Hello, which
  -- lists who was in the room. Where a limit is reached, what the server sends is the text
  -- `Limit reached`, which is no message, before the socket is closed, and `connect` panics. The libraries are assumed to read
  -- what they write: the text, the information and the Hello.
  pub handshake :
      (late : ℕ) (connect_async : Text → Result Socket) (uri : Text) (info : ClientInfoWithoutId)
      (t : Text) (headers : HeaderMap) (addr : IpAddr) (id : Uuid) (lim : Limits) (s : AppState)
      (g : Group) (peer : ClientInfo) (tx : Sender)
      → wire.info_to_string info ≡ ok t
      → json t ≡ some info
      → std.from_utf8 (wire.as_bytes t) ≡ some t
      → (let hello = WsServerMessage.hello peer (infos ((view s).room g)) in
          wire.from_str (write hello) ≡ ok hello)
      → {e : String} → wire.from_str (codes "Limit reached") ≡ err e
      → ¬ Holds ((view s).room g) tx
      → ws_handler std b64 json (b64.encode (wire.as_bytes t)) headers addr id ≡ inr (g, peer)
      → connect_async (uri_with wire b64 uri (b64.encode (wire.as_bytes t)))
        ≡ ok (replies write tx (server_connect lim g peer tx s).1)
      → (peer ≡ client_info info id)
        × (connect wire b64 late connect_async uri info ≡ (
            if admits lim (view s) g
            then connected peer (WsServerMessage.hello peer (infos ((view s).room g)) ∷ [])
            else panicked))
  unfolding ws_handler greet parsed
  handshake late connect_async uri info t headers addr id lim s g peer tx written reads utf8 law {e}
        no_json fresh asked opened =
      (
        upgraded-peer headers addr _ (peer_info-known info t id utf8 reads) asked,
        connect_opened wire b64 late connect_async uri info t _ written opened
            ∙ ap
                (λ a.
                  let socket = replies write tx a in
                  greet late socket.closed none (parsed wire b64 socket.frames))
                (connect-sends lim g peer tx s)
            ∙ (elim (Bool-cases (admits lim (view s) g)) [
              | inl y ↦
                  rw
                    (
                      y,
                      sent_to-connect tx (WsServerMessage.join peer)
                          (WsServerMessage.hello peer (infos ((view s).room g))) ((view s).room g)
                          fresh,
                      law,
                    )
                    refl
              | inr n ↦ rw (n, no_json) refl
            ]),
      )
