-- ===== src/Network/Genuine.antt =====
-- What a client's callback is called with: signaling.rs and ws_controller.rs together.
use mathlib.Core.Path.{subst}
use mathlib.Core.List.{Mem, mem-cons_self}
use magic_share.Base.{
  ◌≡◌, refl, ap, sym, ◌∙◌, number_eq, list_eq, none, some, List, [], ◌∷◌, ◌++◌, All, All-append,
}
use magic_share.Signaling.{WsServerMessage, WsClientMessage}
use magic_share.Signaling.Client.{Callbacks, step as client_step}
use magic_share.Server.{
  Limits, Group, Sender, Send, AppState, receives, hour, server_sdp, Event as ServerEvent,
}
use magic_share.Server.Rooms.{view}
use magic_share.Server.Refines.{IsU32}
use magic_share.Server.Effects.{sends}
use magic_share.Map.{get}
use magic_share.Network.Family.{update, update-all}
use magic_share.Network.Calls.{
  IsGenuine, Waits, Calls, turn-Calls, act-called, later-Waits, later-Calls,
}
use magic_share.Network.Members.{Allowed, Fits, step-Allowed}
use magic_share.Network.Origin.{OriginOf, sends-Origin}
use magic_share.Network.{
  Member, Network, post, serve, received, Step, joins, leaves, hourly, acts, transmits, delivers,
  Steps, done, after,
}

module _ (cbs : Callbacks) (who : Sender → Member) where
  post-Waits :
      (sent : List (Sender × WsClientMessage)) (l : List Send)
      (inbox : Sender → List WsServerMessage)
      → All (λ (s : Send). Waits cbs who sent s.0 s.1) l
      → ((t : Sender) → All (Waits cbs who sent t) (inbox t))
      → (t : Sender) → All (Waits cbs who sent t) (post l inbox t)
  unfolding post
  post-Waits sent [] inbox h k = k
  post-Waits sent ((t, m) ∷ l) inbox (h, hs) k =
      post-Waits sent l (update inbox t (inbox t ++ (m ∷ []))) hs (
        update-all (λ j ms. All (Waits cbs who sent j) ms) inbox t _
          (All-append (Waits cbs who sent t) (inbox t) (m ∷ []) (k t) (h, tt)) k)

  -- Answers among the sends of an event, if it is no answer, or one that is on record.
  IsRecorded : List (Sender × WsClientMessage) → ServerEvent → Type 0
  IsRecorded sent (receives g peer tx (some (WsClientMessage.answer m))) =
      (g ≡ (who tx).group) × (peer ≡ (who tx).peer) × Mem (tx, WsClientMessage.answer m) sent
  IsRecorded sent _ = Unit

  module _ (sent : List (Sender × WsClientMessage)) (s : AppState)
      (rooms : Allowed (λ g id t. ((who t).group ≡ g) × ((who t).peer.id ≡ id)) (view s)) where
    send-Waits :
        (e : ServerEvent) (d : Send)
        → IsRecorded sent e
        → OriginOf (view s).room e d
        → Waits cbs who sent d.0 d.1
    unfolding Waits IsGenuine IsRecorded
    send-Waits (receives g peer tx (some (WsClientMessage.answer m)))
          (t, WsServerMessage.answer sdp) (hg, hp, i) (o, (p, held, same)) =
        let (group, id) = rooms g m.target p held in
        (
          tx,
          m,
          i,
          o ∙ ap (λ p. server_sdp p m) hp,
          sym hg ∙ sym (ap (λ u. (who u).group) same ∙ group),
          sym (ap (λ u. (who u).peer.id) same ∙ id),
        )
    send-Waits e (t, WsServerMessage.answer sdp) k o = elim o [ ]
    send-Waits e (t, m) k o = tt

    sends-Waits :
        (e : ServerEvent) (l : List Send)
        → IsRecorded sent e
        → All (OriginOf (view s).room e) l
        → All (λ (d : Send). Waits cbs who sent d.0 d.1) l
    sends-Waits e [] k o = tt
    sends-Waits e (d ∷ l) k (o, os) = (send-Waits e d k o, sends-Waits e l k os)

  recorded :
      (t : Sender) (m : WsClientMessage) (sent : List (Sender × WsClientMessage))
      → IsRecorded ((t, m) ∷ sent) (receives (who t).group (who t).peer t (some m))
  unfolding IsRecorded
  recorded t (WsClientMessage.update info) sent = tt
  recorded t (WsClientMessage.offer m) sent = tt
  recorded t (WsClientMessage.answer m) sent = (refl, refl, mem-cons_self)

  module _ (lim : Limits) (fits : IsU32 lim) where
    abbrev pub Net : Type 0
    Net = Network cbs lim who

    pub record Sound (n : Net) : Type 0 where
      pub rooms : Allowed (λ g id t. ((who t).group ≡ g) × ((who t).peer.id ≡ id)) (view n.server)
      pub inbox : (t : Sender) → All (Waits cbs who n.sent t) (n.inbox t)
      pub calls : (t : Sender) → Calls cbs who n.sent t (n.connection t)

    serve-Sound :
        (e : ServerEvent) (n : Net)
        → IsRecorded n.sent e
        → Fits (λ g id t. ((who t).group ≡ g) × ((who t).peer.id ≡ id)) e
        → Sound n
        → Sound (serve cbs lim who e n)
    serve-Sound e n k f h = record {
      rooms =
          step-Allowed (λ g id t. ((who t).group ≡ g) × ((who t).peer.id ≡ id)) lim n.server e fits
            f h.rooms;
      inbox =
          post-Waits n.sent (sends lim n.server e) n.inbox
            (sends-Waits n.sent n.server h.rooms e (sends lim n.server e) k
              (sends-Origin lim n.server e))
            h.inbox;
      calls = h.calls;
    }

    Step-Sound : {n n' : Net} → Step cbs lim who n n' → Sound n → Sound n'
    unfolding IsRecorded Calls client_step
    Step-Sound {n} (joins t) h = serve-Sound _ n tt (refl, refl) h
    Step-Sound {n} (leaves t) h = serve-Sound _ n tt tt h
    Step-Sound {n} hourly h = serve-Sound hour n tt tt h
    Step-Sound {n} (acts t e own) h = record {
      rooms = h.rooms;
      inbox = h.inbox;
      calls =
          update-all (λ j c. Calls cbs who n.sent j c) n.connection t _
            (rw (act-called cbs who e (n.connection t) own) (h.calls t)) h.calls;
    }
    Step-Sound {n} (transmits t {m} {rest} first) h =
        serve-Sound (received cbs lim who t m) _ (recorded t m n.sent) tt (record {
          rooms = h.rooms;
          inbox = λ j. later-Waits cbs who (t, m) n.sent j (n.inbox j) (h.inbox j);
          calls =
              update-all (λ j c. Calls cbs who ((t, m) ∷ n.sent) j c) n.connection t _
                (later-Calls cbs who (t, m) n.sent t (n.connection t).called (h.calls t))
                (λ j. later-Calls cbs who (t, m) n.sent j (n.connection j).called (h.calls j));
        })
    Step-Sound {n} (delivers t {m} {rest} first) h =
        let (now, later) = subst (All (Waits cbs who n.sent t)) first (h.inbox t) in
        record {
          rooms = h.rooms;
          inbox = update-all (λ j ms. All (Waits cbs who n.sent j) ms) n.inbox t rest later h.inbox;
          calls =
              update-all (λ j c. Calls cbs who n.sent j c) n.connection t _
                (turn-Calls cbs who n.sent t m (n.connection t).running (n.connection t) now
                  (h.calls t))
                h.calls;
        }

    Steps-Sound : {n n' : Net} → Steps cbs lim who n n' → Sound n → Sound n'
    Steps-Sound done h = h
    Steps-Sound (after ss s) h = Step-Sound s (Steps-Sound ss h)

    -- Whatever the server and its clients do, and in whatever order, for a limit of requests that
    -- fits an u32: if nobody was connected, nothing on its way and no callback called, then each
    -- call of a client's callback is with an answer that a connection of the client's own IP group
    -- has given to the server for this client's id, and that carries the information with which
    -- this connection joined. So no client can answer in another's name.
    pub answers_are-IsGenuine :
        {n n' : Net}
        → ((g : Group) → (view n.server).room g ≡ [])
        → ((t : Sender) → n.inbox t ≡ [])
        → ((t : Sender) → (n.connection t).called ≡ [])
        → Steps cbs lim who n n'
        → (t : Sender) → All (λ k. IsGenuine cbs who n'.sent t k.1) (n'.connection t).called
    unfolding Calls get
    answers_are-IsGenuine {n} empty quiet silent ss =
        (Steps-Sound ss (record {
          rooms = λ g id p held.
              let never : none ≡ some p = subst (λ l. get l id ≡ some p) (empty g) held in cc;
          inbox = λ t. rw (quiet t) tt;
          calls = λ t. rw (silent t) tt;
        })).calls
