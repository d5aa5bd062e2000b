-- ===== src/Network/Origin.antt =====
-- Where the answers come from that the server sends: ws_controller.rs.
use magic_share.Base.{
  ◌≡◌, refl, inl, inr, Option, none, some, List, [], ◌∷◌, number_eq, list_eq, Option-cases,
  Bool-cases, All, All-append,
}
use mathlib.Core.Path.{subst}
use magic_share.Map.{HashMap, get, remove}
use magic_share.Signaling.{
  Uuid, ClientInfo, client_info, WsServerMessage, WsClientMessage, WsServerSdpMessage,
}
use magic_share.Server.{
  Limits, Group, Sender, Send, ClientState, LocalMap, AppState, or_insert, senders, broadcast,
  server_sdp, dispatch, receive, protect_ddos_request_count, Event, connects, receives, disconnects,
  hour, send_to_peer,
}
use magic_share.Server.Rooms.{view, admits}
use magic_share.Server.Refines.{allowed-protect, tx_map-protect, quota}
use magic_share.Server.Effects.{sends, connect-sends, disconnect-sends, update-sends, forward-sends}

-- The channel stands under the id in the room.
abbrev pub IsAt : LocalMap → Uuid → Sender → Type 0
IsAt room id t = (p : ClientState) × (get room id ≡ some p) × (t ≡ p.tx)

-- An answer is that of the client whose message is handled, with the information of its
-- connection, and it goes to the channel under the id that the message is for.
abbrev pub IsAnswerOf : (Group → LocalMap) → Event → Sender → WsServerSdpMessage → Type 0
IsAnswerOf room (receives g peer tx (some (WsClientMessage.answer m))) t sdp =
    (sdp ≡ server_sdp peer m) × IsAt (room g) m.target t
IsAnswerOf room _ t sdp = ⊥

abbrev pub OriginOf : (Group → LocalMap) → Event → Send → Type 0
OriginOf room e (t, WsServerMessage.answer sdp) = IsAnswerOf room e t sdp
OriginOf room e _ = Unit

-- Any other message may go anywhere.
IsOther : WsServerMessage → Type 0
IsOther (WsServerMessage.answer sdp) = ⊥
IsOther _ = Unit

other-OriginOf :
    (room : Group → LocalMap) (e : Event) (t : Sender) (m : WsServerMessage)
    → IsOther m
    → OriginOf room e (t, m)
unfolding IsOther
other-OriginOf room e t (WsServerMessage.answer sdp) o = elim o [ ]
other-OriginOf room e t (WsServerMessage.hello c peers) o = tt
other-OriginOf room e t (WsServerMessage.join p) o = tt
other-OriginOf room e t (WsServerMessage.update p) o = tt
other-OriginOf room e t (WsServerMessage.left p) o = tt
other-OriginOf room e t (WsServerMessage.offer p) o = tt
other-OriginOf room e t (WsServerMessage.error p) o = tt

broadcast-Origin :
    (room : Group → LocalMap) (e : Event) (m : WsServerMessage) (ts : List Sender)
    → IsOther m
    → All (OriginOf room e) (broadcast m ts)
broadcast-Origin room e m [] o = tt
broadcast-Origin room e m (t ∷ ts) o = (other-OriginOf room e t m o, broadcast-Origin room e m ts o)

to_peer-Origin :
    (e : Event) (g : Group) (target : Uuid) (m : WsServerMessage) (s : AppState)
    → ((t : Sender) → IsAt ((view s).room g) target t → OriginOf (view s).room e (t, m))
    → All (OriginOf (view s).room e) (send_to_peer g target m s)
to_peer-Origin e g target m s o = elim (Option-cases (get ((view s).room g) target)) [
  | inl h ↦ rw (forward-sends g target m s, h) tt
  | inr (p, h) ↦ rw (forward-sends g target m s, h) (o p.tx (p, h, refl), tt)
]

dispatch-Origin :
    (g : Group) (peer : ClientInfo) (tx : Sender) (m : WsClientMessage) (s : AppState)
    → All (OriginOf (view s).room (receives g peer tx (some m))) (dispatch g peer m s).1
unfolding dispatch IsOther
dispatch-Origin g peer tx (WsClientMessage.update info) s =
    rw (update-sends g peer.id info s) (go (get ((view s).room g) peer.id))
  where
    go :
        (o : Option ClientState)
        → All
            (OriginOf (view s).room (receives g peer tx (some (WsClientMessage.update info))))
            (elim o [
              | none ↦ []
              | some p ↦
                  broadcast
                    (WsServerMessage.update (client_info info peer.id))
                    (senders (remove ((view s).room g) peer.id))
            ])
    go none = tt
    go (some p) =
        broadcast-Origin (view s).room (receives g peer tx (some (WsClientMessage.update info)))
          (WsServerMessage.update (client_info info peer.id))
          (senders (remove ((view s).room g) peer.id)) tt
dispatch-Origin g peer tx (WsClientMessage.offer m) s =
    to_peer-Origin (receives g peer tx (some (WsClientMessage.offer m))) g m.target
      (WsServerMessage.offer (server_sdp peer m)) s (λ t at. tt)
dispatch-Origin g peer tx (WsClientMessage.answer m) s =
    to_peer-Origin (receives g peer tx (some (WsClientMessage.answer m))) g m.target
      (WsServerMessage.answer (server_sdp peer m)) s (λ t at. (refl, at))

receive-Origin :
    (lim : Limits) (g : Group) (peer : ClientInfo) (tx : Sender) (m : WsClientMessage)
    (s : AppState)
    → All
        (OriginOf (view s).room (receives g peer tx (some m)))
        (receive lim g peer tx (some m) s).1
unfolding receive
receive-Origin lim g peer tx m s =
    let s' = (protect_ddos_request_count lim g s).0 in
    elim (Bool-cases (quota lim g s)) [
      | inl q ↦
          rw (allowed-protect lim g s, q)
            (subst
              (λ (maps : HashMap Group LocalMap).
                All (OriginOf (λ h. or_insert (get maps h) []) (receives g peer tx (some m)))
                  (dispatch g peer m s').1)
              (tx_map-protect lim g s) (dispatch-Origin g peer tx m s'))
      | inr q ↦ rw (allowed-protect lim g s, q) (tt, tt)
    ]

-- The answers among the sends of an event.
pub sends-Origin :
    (lim : Limits) (s : AppState) (e : Event) → All (OriginOf (view s).room e) (sends lim s e)
unfolding sends receive IsOther
sends-Origin lim s (connects g peer tx) = elim (Bool-cases (admits lim (view s) g)) [
  | inl a ↦
      rw (connect-sends lim g peer tx s, a)
        (All-append (OriginOf (view s).room (connects g peer tx))
          (broadcast (WsServerMessage.join peer) (senders ((view s).room g))) _
          (broadcast-Origin (view s).room (connects g peer tx) (WsServerMessage.join peer)
            (senders ((view s).room g)) tt)
          (tt, tt))
  | inr a ↦ rw (connect-sends lim g peer tx s, a) tt
]
sends-Origin lim s (receives g peer tx none) = tt
sends-Origin lim s (receives g peer tx (some m)) = receive-Origin lim g peer tx m s
sends-Origin lim s (disconnects g id) =
    rw (disconnect-sends g id s) (
      broadcast-Origin (view s).room (disconnects g id) _ (senders (remove ((view s).room g) id))
        tt)
sends-Origin lim s hour = tt
