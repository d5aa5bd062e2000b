-- ===== src/Network/Pair.antt =====
-- Two connections of a network and what each step does to them.
use magic_share.Base.{
  ℕ, ◌+◌, ◌<◌, ◌≡◌, refl, ap, sym, ◌∙◌, ◌≢◌, true, some, List, [], ◌∷◌, ◌++◌, number_eq, list_eq,
  ==-refl, ltb, arith,
}
use magic_share.Map.{get}
use magic_share.Signaling.{Uuid, ClientInfo, WsServerMessage, WsClientMessage, WsClientSdpMessage}
use magic_share.Signaling.Client.{Callbacks, Connection, Event, incoming, step as client_step}
use magic_share.Server.{
  Limits, Group, Sender, Send, ClientState, LocalMap, AppState, receives, server_sdp,
  step as server_step,
}
use magic_share.Server.Rooms.{Rooms, view, charge, spec_step}
use magic_share.Server.Refines.{IsU32, view-step, quota}
use magic_share.Server.Effects.{sends}
use magic_share.Server.Presence.{receive_offer, receive_reply}
use magic_share.Network.Family.{update-same, update-other}
use magic_share.Network.{Member, Network, post, transmit, deliver, act}

-- A client's message to a peer, and what the server makes of it.
pub data Relays (peer : ClientInfo) : WsClientMessage → Uuid → WsServerMessage → Type 0 where
  offers :
      (d : WsClientSdpMessage)
      → Relays peer (WsClientMessage.offer d) d.target (WsServerMessage.offer (server_sdp peer d))
  answers :
      (d : WsClientSdpMessage)
      → Relays peer (WsClientMessage.answer d) d.target (WsServerMessage.answer (server_sdp peer d))

relayed :
    (lim : Limits) (s : AppState) (g : Group) (peer : ClientInfo) (tx : Sender)
    {m : WsClientMessage} {target : Uuid} {passed : WsServerMessage} {q : ClientState}
    → Relays peer m target passed
    → quota lim g s ≡ true
    → get ((view s).room g) target ≡ some q
    → sends lim s (receives g peer tx (some m)) ≡ (q.tx, passed) ∷ []
unfolding sends
relayed lim s g peer tx (offers d) free here = receive_offer lim g peer tx d s free ∙ rw here refl
relayed lim s g peer tx (answers d) free here = receive_reply lim g peer tx d s free ∙ rw here refl

relay_step :
    (lim : Limits) (r : Rooms) (g : Group) (peer : ClientInfo) (tx : Sender) {m : WsClientMessage}
    {target : Uuid} {passed : WsServerMessage}
    → Relays peer m target passed
    → ltb (r.requests g) lim.max_requests ≡ true
    → spec_step lim r (receives g peer tx (some m)) ≡ charge r g
relay_step lim r g peer tx (offers d) free = rw free refl
relay_step lim r g peer tx (answers d) free = rw free refl

relayed-room :
    (lim : Limits) (s : AppState) (g : Group) (peer : ClientInfo) (tx : Sender)
    {m : WsClientMessage} {target : Uuid} {passed : WsServerMessage}
    → IsU32 lim
    → Relays peer m target passed
    → quota lim g s ≡ true
    → let r = view (server_step lim s (receives g peer tx (some m))) in
      (r.room g ≡ (view s).room g) × (r.requests g ≡ (view s).requests g + 1)
relayed-room lim s g peer tx {m} fits relays free =
    let e : view (server_step lim s (receives g peer tx (some m))) ≡ charge (view s) g =
      view-step lim s (receives g peer tx (some m)) fits
      ∙ relay_step lim (view s) g peer tx relays free in
    (ap (λ (r : Rooms). r.room g) e, ap (λ (r : Rooms). r.requests g) e ∙ rw (==-refl g) refl)

module _ (cbs : Callbacks) (lim : Limits) (who : Sender → Member) where
  abbrev pub Net : Type 0
  Net = Network cbs lim who

  -- What is looked at: two connections, what waits at each, and of the server one room and its
  -- count of requests.
  pub record Pair (g : Group) (a b : Sender) : Type 0 where
    pub caller : Connection cbs
    pub callee : Connection cbs
    pub caller_inbox : List WsServerMessage
    pub callee_inbox : List WsServerMessage
    pub room : LocalMap
    pub requests : ℕ

  pub record Shows {g : Group} {a b : Sender} (n : Net) (p : Pair g a b) : Type 0 where
    pub caller : n.connection a ≡ p.caller
    pub callee : n.connection b ≡ p.callee
    pub caller_inbox : n.inbox a ≡ p.caller_inbox
    pub callee_inbox : n.inbox b ≡ p.callee_inbox
    pub room : (view n.server).room g ≡ p.room
    pub requests : (view n.server).requests g ≡ p.requests

  abbrev pub swap : {g : Group} {a b : Sender} → Pair g a b → Pair g b a
  swap p = record {
    caller = p.callee;
    callee = p.caller;
    caller_inbox = p.callee_inbox;
    callee_inbox = p.caller_inbox;
    room = p.room;
    requests = p.requests;
  }

  pub Shows-swap :
      {g : Group} {a b : Sender} {n : Net} (p : Pair g a b) → Shows n p → Shows n (swap p)
  Shows-swap p h = record {
    caller = h.callee;
    callee = h.caller;
    caller_inbox = h.callee_inbox;
    callee_inbox = h.caller_inbox;
    room = h.room;
    requests = h.requests;
  }

  module _ (g : Group) (a b : Sender) (apart : a ≢ b) where
    -- The caller's app does something.
    pub act-Shows :
        (n : Net) (p : Pair g a b) (e : Event cbs)
        → Shows n p
        → Shows (act cbs lim who a e n) (record p { caller = client_step cbs e p.caller })
    act-Shows n p e h = record {
      caller = update-same n.connection a _ ∙ ap (client_step cbs e) h.caller;
      callee = update-other n.connection a b _ apart ∙ h.callee;
      caller_inbox = h.caller_inbox;
      callee_inbox = h.callee_inbox;
      room = h.room;
      requests = h.requests;
    }

    -- The caller takes a message.
    pub deliver-Shows :
        (n : Net) (p : Pair g a b) (m : WsServerMessage) (rest : List WsServerMessage)
        → Shows n p
        → Shows
            (deliver cbs lim who a m rest n)
            (record p { caller = client_step cbs (incoming m) p.caller; caller_inbox = rest })
    deliver-Shows n p m rest h = record {
      caller = update-same n.connection a _ ∙ ap (client_step cbs (incoming m)) h.caller;
      callee = update-other n.connection a b _ apart ∙ h.callee;
      caller_inbox = update-same n.inbox a rest;
      callee_inbox = update-other n.inbox a b rest apart ∙ h.callee_inbox;
      room = h.room;
      requests = h.requests;
    }

    post_one-same :
        (inbox : Sender → List WsServerMessage) (l : List Send) (m : WsServerMessage)
        → l ≡ (b, m) ∷ []
        → (post l inbox b ≡ inbox b ++ (m ∷ [])) × (post l inbox a ≡ inbox a)
    post_one-same inbox l m e = (
      ap (λ d. post d inbox b) e ∙ (unfold post in update-same inbox b _),
      ap (λ d. post d inbox a) e ∙ (unfold post in update-other inbox b a _ (λ q. apart (sym q))),
    )

    -- The server passes a message of the caller on to the callee.
    pub transmit-Shows :
        (n : Net) (p : Pair g a b) {m : WsClientMessage} (rest : List WsClientMessage)
        {target : Uuid} {passed : WsServerMessage} {q : ClientState}
        → IsU32 lim
        → (who a).group ≡ g
        → Relays (who a).peer m target passed
        → p.requests < lim.max_requests
        → get p.room target ≡ some q
        → q.tx ≡ b
        → Shows n p
        → Shows (transmit cbs lim who a m rest n) (record p {
          caller = record p.caller { tx = rest };
          callee_inbox = p.callee_inbox ++ (passed ∷ []);
          requests = p.requests + 1;
        })
    transmit-Shows n p {m} rest {target} {passed} {q} fits member relays free here is_b h =
        let allowed : quota lim g n.server ≡ true = ground (arith, h.requests) in
        let sent : sends lim n.server (receives g (who a).peer a (some m)) ≡ (b, passed) ∷ [] =
          relayed lim n.server g (who a).peer a relays allowed
            (ap (λ r. get r target) h.room ∙ here)
          ∙ ap (λ t. (t, passed) ∷ []) is_b in
        let (kept, counted) = relayed-room lim n.server g (who a).peer a fits relays allowed in
        let (to_b, to_a) = post_one-same n.inbox _ passed sent in
        rw member (record {
          caller =
              update-same n.connection a _
              ∙ ap (λ (c : Connection cbs). record c { tx = rest }) h.caller;
          callee = update-other n.connection a b _ apart ∙ h.callee;
          caller_inbox = to_a ∙ h.caller_inbox;
          callee_inbox = to_b ∙ ap (λ l. l ++ (passed ∷ [])) h.callee_inbox;
          room = kept ∙ h.room;
          requests = counted ∙ ap (λ k. k + 1) h.requests;
        })
