-- ===== src/Network.antt =====
-- The signaling server and its clients together: server/src/controller/ws_controller.rs with
-- core/src/webrtc/signaling.rs. A connection is named by the server's channel to it (`Sender`); its
-- IP group and the information that it connected with stay as they were at the handshake.
pub mod Family
pub mod Members
pub mod Origin
pub mod Calls
pub mod Genuine
pub mod Pair
pub mod Call
pub mod Handshake
mod Examples
use magic_share.Base.{ℕ, ◌≡◌, Bool, true, false, Option, none, some, List, [], ◌∷◌, ◌++◌}
use magic_share.Signaling.{ClientInfo, WsServerMessage, WsClientMessage}
use magic_share.Signaling.Client.{
  Callbacks, Connection, Event, incoming, register, outgoing, stop_listening, stop_writing,
  step as client_step,
}
use magic_share.Server.{
  Limits, Group, Sender, Send, AppState, connects, receives, disconnects, hour,
  Event as ServerEvent, step as server_step,
}
use magic_share.Server.Effects.{sends}
use magic_share.Network.Family.{update}

pub record Member : Type 0 where
  pub group : Group
  pub peer : ClientInfo

-- Sends are queued at the sockets that they go to.
unfoldable pub post : List Send → (Sender → List WsServerMessage) → Sender → List WsServerMessage
post [] inbox = inbox
post ((t, m) ∷ sends) inbox = post sends (update inbox t (inbox t ++ (m ∷ [])))

-- What a client's app does, and not the server.
abbrev pub IsOwn : {cbs : Callbacks} → Event cbs → Type 0
IsOwn (incoming m) = ⊥
IsOwn _ = Unit

module _ (cbs : Callbacks) (lim : Limits) (who : Sender → Member) where
  -- `inbox` is what the server has sent to a socket and the client has not taken yet, and `sent`
  -- all that clients' sockets have given to the server, the last first.
  pub record Network : Type 0 where
    pub server : AppState
    pub inbox : Sender → List WsServerMessage
    pub connection : Sender → Connection cbs
    pub sent : List (Sender × WsClientMessage)

  -- The server handles an event, and its sends are posted.
  abbrev pub serve : ServerEvent → Network → Network
  serve e n = record n {
    server = server_step lim n.server e;
    inbox = post (sends lim n.server e) n.inbox;
  }

  abbrev pub received : Sender → WsClientMessage → ServerEvent
  received t m = receives (who t).group (who t).peer t (some m)

  -- The writer of a client takes the first message, and the server receives it.
  abbrev pub transmit : Sender → WsClientMessage → List WsClientMessage → Network → Network
  transmit t m rest n = serve (received t m) (record n {
    connection = update n.connection t (record (n.connection t) { tx = rest });
    sent = (t, m) ∷ n.sent;
  })

  -- A client's listener takes the first message.
  abbrev pub deliver : Sender → WsServerMessage → List WsServerMessage → Network → Network
  deliver t m rest n = record n {
    inbox = update n.inbox t rest;
    connection = update n.connection t (client_step cbs (incoming m) (n.connection t));
  }

  abbrev pub act : Sender → Event cbs → Network → Network
  act t e n = record n { connection = update n.connection t (client_step cbs e (n.connection t)) }

  -- The steps of the network, in any order. A socket may also join, leave or send when it could
  -- not at a real server: what holds of these runs holds of the real ones.
  pub data Step (n : Network) : Network → Type 0 where
    joins : (t : Sender) → Step n (serve (connects (who t).group (who t).peer t) n)
    leaves : (t : Sender) → Step n (serve (disconnects (who t).group (who t).peer.id) n)
    hourly : Step n (serve hour n)
    acts : (t : Sender) (e : Event cbs) → IsOwn e → Step n (act t e n)
    transmits :
        (t : Sender) {m : WsClientMessage} {rest : List WsClientMessage}
        → (n.connection t).tx ≡ m ∷ rest
        → Step n (transmit t m rest n)
    delivers :
        (t : Sender) {m : WsServerMessage} {rest : List WsServerMessage}
        → n.inbox t ≡ m ∷ rest
        → Step n (deliver t m rest n)

  pub data Steps (n : Network) : Network → Type 0 where
    done : Steps n n
    after : {n' n'' : Network} → Steps n n' → Step n' n'' → Steps n n''
