-- ===== src/Signaling/Client.antt =====
-- core/src/webrtc/signaling.rs: a client's listener (`start_listener`) and its sending half.
pub mod Sessions
pub mod Offer
pub mod Forwards
pub mod Examples
use magic_share.Base.{
  String, Bool, true, false, Option, some, none, List, [], ◌∷◌, ◌++◌, if◌then◌else◌, Result, ok,
  err, text_eq,
}
use magic_share.Map.{HashMap, get, insert, remove}
use magic_share.Signaling.{
  Uuid, ClientInfoWithoutId, WsServerMessage, WsServerSdpMessage, WsClientMessage,
  WsClientSdpMessage,
}

-- A callback that was registered: what is known of it is whether a call returns or panics.
pub record Callbacks : Type 1 where
  pub AnswerCallback : Type 0
  pub returns : AnswerCallback → WsServerSdpMessage → Bool

module _ (cbs : Callbacks) where
  -- `running` is the listener's task, `listening` the receiver that the app holds, `writing` the
  -- task that takes what `tx` is given; `called` are the calls of callbacks.
  pub record Connection : Type 0 where
    pub tx : List WsClientMessage
    pub writing : Bool
    pub on_answer : HashMap String cbs.AnswerCallback
    pub called : List (cbs.AnswerCallback × WsServerSdpMessage)
    pub forwarded : List WsServerMessage
    pub listening : Bool
    pub running : Bool

  -- What happens to a connection: a message comes from the server, the app registers a callback
  -- or sends a message, and either end of the channels is dropped.
  pub data Event : Type 0 where
    incoming : WsServerMessage → Event
    register : String → cbs.AnswerCallback → Event
    outgoing : WsClientMessage → Event
    stop_listening stop_writing : Event

  -- `ManagedSignalingConnection::on_answer`
  unfoldable pub on_answer : String → cbs.AnswerCallback → Connection → Connection
  on_answer session_id callback c = record c { on_answer = insert c.on_answer session_id callback }

  -- `tx.send(message).await.unwrap()`
  unfoldable pub forward : WsServerMessage → Connection → Connection
  forward message c =
      if c.listening
      then record c { forwarded = c.forwarded ++ (message ∷ []) }
      else record c { running = false }

  unfoldable pub answered : WsServerSdpMessage → Option cbs.AnswerCallback → Connection → Connection
  answered sdp none c = forward (WsServerMessage.answer sdp) c
  answered sdp (some callback) c =
      let after = record c {
        on_answer = remove c.on_answer sdp.session_id;
        called = c.called ++ ((callback, sdp) ∷ []);
      } in
      if cbs.returns callback sdp
      then forward (WsServerMessage.answer sdp) after
      else record after { running = false }

  -- One turn of the listener's loop.
  unfoldable pub listen : WsServerMessage → Connection → Connection
  listen (WsServerMessage.answer sdp) c = answered sdp (get c.on_answer sdp.session_id) c
  listen message c = forward message c

  -- `mpsc::Sender::send`
  unfoldable pub send : WsClientMessage → Connection → Result (Unit {0}) × Connection
  send message c =
      if c.writing
      then (ok tt, record c { tx = c.tx ++ (message ∷ []) })
      else (err "channel closed", c)

  unfoldable pub send_update : ClientInfoWithoutId → Connection → Result (Unit {0}) × Connection
  send_update info = send (WsClientMessage.update info)

  unfoldable pub send_offer : String → Uuid → String → Connection → Result (Unit {0}) × Connection
  send_offer session_id target sdp =
      send (WsClientMessage.offer record { session_id = session_id; target = target; sdp = sdp })

  unfoldable pub send_answer : String → Uuid → String → Connection → Result (Unit {0}) × Connection
  send_answer session_id target sdp =
      send (WsClientMessage.answer record { session_id = session_id; target = target; sdp = sdp })

  unfoldable pub step : Event → Connection → Connection
  step (incoming message) c = if c.running then listen message c else c
  step (register session_id callback) c = on_answer session_id callback c
  step (outgoing message) c = (send message c).1
  step stop_listening c = record c { listening = false }
  step stop_writing c = record c { writing = false }

  unfoldable pub run : List Event → Connection → Connection
  run [] c = c
  run (e ∷ es) c = run es (step e c)
