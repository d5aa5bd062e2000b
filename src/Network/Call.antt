-- ===== src/Network/Call.antt =====
-- One client calls another over the server: `send_offer` and `accept_offer` of
-- core/src/webrtc/webrtc.rs as far as the signaling goes.
use magic_share.Base.{
  ◌+◌, ◌<◌, String, ◌≡◌, refl, ap, sym, ◌∙◌, ◌≢◌, true, some, [], ◌∷◌, ◌++◌, number_eq, list_eq,
  text_eq, ==-refl, arith,
}
use magic_share.Map.{get}
use magic_share.Map.Laws.{get-insert}
use magic_share.Signaling.{WsServerMessage, WsClientMessage, WsClientSdpMessage}
use magic_share.Signaling.Client.{
  Callbacks, Connection, register, outgoing, step as client_step, send, listen, forward, answered,
  on_answer,
}
use magic_share.Server.{Limits, Group, Sender, server_sdp, ClientState}
use magic_share.Server.Rooms.{view}
use magic_share.Server.Refines.{IsU32}
use magic_share.Network.{Member, Network, Steps, done, after, acts, transmits, delivers}
use magic_share.Network.Pair.{
  Shows, Shows-swap, act-Shows, deliver-Shows, transmit-Shows, offers, answers,
}

-- A connection whose tasks run and whose socket has sent all that it was given.
abbrev pub ready : {cbs : Callbacks} → Connection cbs → Connection cbs
ready c = record c { tx = []; writing = true; listening = true; running = true }

module _ (cbs : Callbacks) (who : Sender → Member) (lim : Limits) (g : Group) (a b : Sender)
    (session : String) (callback : cbs.AnswerCallback) (offer_sdp answer_sdp : String) where
  abbrev pub sent_offer : WsClientSdpMessage
  sent_offer = record { session_id = session; target = (who b).peer.id; sdp = offer_sdp }

  abbrev pub sent_answer : WsClientSdpMessage
  sent_answer = record { session_id = session; target = (who a).peer.id; sdp = answer_sdp }

  -- What there is before the call: both are in the room, and nothing is on its way to them.
  pub record CanCall (n : Network cbs lim who) : Type 0 where
    pub caller_group : (who a).group ≡ g
    pub callee_group : (who b).group ≡ g
    pub caller_ready : n.connection a ≡ ready (n.connection a)
    pub callee_ready : n.connection b ≡ ready (n.connection b)
    pub caller_inbox : n.inbox a ≡ []
    pub callee_inbox : n.inbox b ≡ []
    pub caller_state : ClientState
    pub callee_state : ClientState
    pub caller_here : get ((view n.server).room g) (who a).peer.id ≡ some caller_state
    pub callee_here : get ((view n.server).room g) (who b).peer.id ≡ some callee_state
    pub caller_tx : caller_state.tx ≡ a
    pub callee_tx : callee_state.tx ≡ b
    pub quota : (view n.server).requests g + 1 < lim.max_requests
    pub returns : cbs.returns callback (server_sdp (who b).peer sent_answer) ≡ true

  pub record Called (n : Network cbs lim who) : Type 0 where
    pub last : Network cbs lim who
    pub steps : Steps cbs lim who n last
    pub heard :
        (last.connection b).forwarded
        ≡ (n.connection b).forwarded
          ++ (WsServerMessage.offer (server_sdp (who a).peer sent_offer) ∷ [])
    pub called :
        (last.connection a).called
        ≡ (n.connection a).called ++ ((callback, server_sdp (who b).peer sent_answer) ∷ [])

  Ready-Shows :
      (n : Network cbs lim who)
      → CanCall n
      → Shows cbs lim who {g = g} {a = a} {b = b} n (record {
        caller = ready (n.connection a);
        callee = ready (n.connection b);
        caller_inbox = [];
        callee_inbox = [];
        room = (view n.server).room g;
        requests = (view n.server).requests g;
      })
  Ready-Shows n c = record {
    caller = c.caller_ready;
    callee = c.callee_ready;
    caller_inbox = c.caller_inbox;
    callee_inbox = c.callee_inbox;
    room = refl;
    requests = refl;
  }

  -- Two different clients are in one room, their tasks run, their sockets have sent all that they
  -- were given, nothing is on its way to them, the room's group may make two more requests (of a
  -- limit that fits an u32), and the callback returns. Then there is a run of the network in which the one offers and registers the
  -- callback, and the other answers: the app of the other is given the offer, in the name that the
  -- one joined with, and the callback is called, once, with the answer, in the name of the other.
  pub call_completes : a ≢ b → IsU32 lim → (n : Network cbs lim who) → CanCall n → Called n
  unfolding client_step send listen forward on_answer answered
  call_completes apart fits n c =
      let h1 =
        act-Shows cbs lim who g a b apart n _ (outgoing (WsClientMessage.offer sent_offer))
          (Ready-Shows n c) in
      let h2 = act-Shows cbs lim who g a b apart _ _ (register session callback) h1 in
      let turned : b ≢ a = λ q. apart (sym q) in
      let h3 =
        transmit-Shows cbs lim who g a b apart _ _ [] fits c.caller_group (offers sent_offer)
          (omega arith) c.callee_here c.callee_tx h2 in
      let k3 = Shows-swap cbs lim who _ h3 in
      let h4 =
        deliver-Shows cbs lim who g b a turned _ _
          (WsServerMessage.offer (server_sdp (who a).peer sent_offer)) [] k3 in
      let h5 =
        act-Shows cbs lim who g b a turned _ _ (outgoing (WsClientMessage.answer sent_answer)) h4 in
      let h6 =
        transmit-Shows cbs lim who g b a turned _ _ [] fits c.callee_group (answers sent_answer)
          c.quota c.caller_here c.caller_tx h5 in
      let k6 = Shows-swap cbs lim who _ h6 in
      let h7 =
        deliver-Shows cbs lim who g a b apart _ _
          (WsServerMessage.answer (server_sdp (who b).peer sent_answer)) [] k6 in
      record {
        last = _;
        steps =
            after
              (after
                (after
                  (after
                    (after
                      (after (after done (acts a (outgoing (WsClientMessage.offer sent_offer)) tt))
                        (acts a (register session callback) tt))
                      (transmits a (ap (λ (d : Connection cbs). d.tx) h2.caller)))
                    (delivers b k3.caller_inbox))
                  (acts b (outgoing (WsClientMessage.answer sent_answer)) tt))
                (transmits b (ap (λ (d : Connection cbs). d.tx) h5.caller)))
              (delivers a k6.caller_inbox);
        heard = ap (λ (d : Connection cbs). d.forwarded) h7.callee;
        called =
            ap (λ (d : Connection cbs). d.called) h7.caller
            ∙ rw (get-insert, ==-refl session, c.returns) refl;
      }
