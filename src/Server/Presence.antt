-- ===== src/Server/Presence.antt =====
-- A peer's stay: joining, being called by others, and leaving.
use magic_share.Base.{
  ◌≡◌, ap, ◌∙◌, true, false, none, some, [], ◌∷◌, number_eq, list_eq, ◌==◌, ==-refl, arith,
  list_test_iff,
}
use magic_share.Map.{get, insert, remove}
use magic_share.Map.Laws.{get-insert_self, remove-insert, remove_absent}
use magic_share.Signaling.{
  Uuid, ClientInfo, ClientInfoWithoutId, without_id, WsServerMessage, WsClientMessage,
  WsClientSdpMessage,
}
use magic_share.Server.{
  Limits, Group, Sender, ClientState, AppState, senders, broadcast, server_sdp, dispatch, receive,
  connects, receives, disconnects, step, protect_ddos_request_count,
}
use magic_share.Server.Rooms.{Rooms, view, admits}
use magic_share.Server.Refines.{IsU32, view-step, allowed-protect, tx_map-protect, quota}
use magic_share.Server.Effects.{sends, disconnect-sends, forward-sends}

pub receive_offer :
    (lim : Limits) (g : Group) (peer : ClientInfo) (tx : Sender) (m : WsClientSdpMessage)
    (s : AppState)
    → quota lim g s ≡ true
    → (receive lim g peer tx (some (WsClientMessage.offer m)) s).1
      ≡ elim (get ((view s).room g) m.target) [
        | none ↦ []
        | some p ↦ (p.tx, WsServerMessage.offer (server_sdp peer m)) ∷ []
      ]
unfolding receive dispatch
receive_offer lim g peer tx m s q =
    let s' = (protect_ddos_request_count lim g s).0 in
    rw (
      allowed-protect lim g s,
      q,
      forward-sends g m.target (WsServerMessage.offer (server_sdp peer m)) s',
      tx_map-protect lim g s,
    )

pub receive_reply :
    (lim : Limits) (g : Group) (peer : ClientInfo) (tx : Sender) (m : WsClientSdpMessage)
    (s : AppState)
    → quota lim g s ≡ true
    → (receive lim g peer tx (some (WsClientMessage.answer m)) s).1
      ≡ elim (get ((view s).room g) m.target) [
        | none ↦ []
        | some p ↦ (p.tx, WsServerMessage.answer (server_sdp peer m)) ∷ []
      ]
unfolding receive dispatch
receive_reply lim g peer tx m s q =
    let s' = (protect_ddos_request_count lim g s).0 in
    rw (
      allowed-protect lim g s,
      q,
      forward-sends g m.target (WsServerMessage.answer (server_sdp peer m)) s',
      tx_map-protect lim g s,
    )

module _ (lim : Limits) (fits : IsU32 lim) (g : Group) (peer : ClientInfo) (tx : Sender)
    (s : AppState) (free : admits lim (view s) g ≡ true) where
  abbrev pub entered : AppState
  entered = step lim s (connects g peer tx)

  room-entered :
      (view entered).room g
      ≡ insert ((view s).room g) peer.id (record { client = without_id peer; tx = tx })
  room-entered =
      ap (λ (r : Rooms). r.room g) (view-step lim s (connects g peer tx) fits)
      ∙ ground (arith, ==-refl g)

  room-entered_other : (h : Group) → (g == h) ≡ false → (view entered).room h ≡ (view s).room h
  room-entered_other h n =
      ap (λ (r : Rooms). r.room h) (view-step lim s (connects g peer tx) fits) ∙ ground arith

  left_behind :
      get ((view s).room g) peer.id ≡ none
      → remove ((view entered).room g) peer.id ≡ (view s).room g
  left_behind fresh =
      ap (λ l. remove l peer.id) room-entered
      ∙ remove-insert ((view s).room g) peer.id (record { client = without_id peer; tx = tx })
      ∙ remove_absent ((view s).room g) peer.id fresh

  -- A peer with a fresh id that is admitted and leaves at once leaves every room as it was, and
  -- its departure is told to exactly the peers that heard of its arrival.
  pub connect-disconnect :
      get ((view s).room g) peer.id ≡ none
      → ((h : Group) → (view (step lim entered (disconnects g peer.id))).room h ≡ (view s).room h)
        × (sends lim entered (disconnects g peer.id)
            ≡ broadcast (WsServerMessage.left peer.id) (senders ((view s).room g)))
  unfolding sends
  connect-disconnect fresh = (
    λ h.
        ap (λ (r : Rooms). r.room h) (view-step lim entered (disconnects g peer.id) fits)
        ∙ ground (arith, list_test_iff g h, left_behind fresh, room-entered_other h),
    disconnect-sends g peer.id entered
        ∙ ap (λ l. broadcast (WsServerMessage.left peer.id) (senders l)) (left_behind fresh),
  )

  registered :
      (id : Uuid)
      → id ≡ peer.id
      → get ((view entered).room g) id ≡ some (record { client = without_id peer; tx = tx })
  registered id e =
      ap (λ l. get l id) room-entered
      ∙ ap (get (insert ((view s).room g) peer.id (record { client = without_id peer; tx = tx }))) e
      ∙ get-insert_self ((view s).room g) peer.id (record { client = without_id peer; tx = tx })

  -- Once a peer is admitted, an offer of another connection with a request left is delivered to
  -- its channel alone if it comes from the same group.
  pub offer_delivered :
      (caller : ClientInfo) (caller_tx : Sender) (m : WsClientSdpMessage)
      → m.target ≡ peer.id
      → quota lim g entered ≡ true
      → sends lim entered (receives g caller caller_tx (some (WsClientMessage.offer m)))
        ≡ (tx, WsServerMessage.offer (server_sdp caller m)) ∷ []
  unfolding sends
  offer_delivered caller caller_tx m e q =
      receive_offer lim g caller caller_tx m entered q ∙ rw (registered m.target e)

-- The room learns of an update, but the offers of its author go on to carry the information that
-- it connected with.
pub offer_after_update :
    (lim : Limits) (g : Group) (peer : ClientInfo) (tx : Sender) (info : ClientInfoWithoutId)
    (m : WsClientSdpMessage) (s : AppState) (p q : ClientState)
    → IsU32 lim
    → quota lim g s ≡ true
    → get ((view s).room g) peer.id ≡ some p
    → let t = step lim s (receives g peer tx (some (WsClientMessage.update info))) in
      quota lim g t ≡ true
      → get ((view t).room g) m.target ≡ some q
      → (get ((view t).room g) peer.id ≡ some (record p { client = info }))
        × (sends lim t (receives g peer tx (some (WsClientMessage.offer m)))
            ≡ (q.tx, WsServerMessage.offer (server_sdp peer m)) ∷ [])
unfolding sends
offer_after_update lim g peer tx info m s p q fits free here later target =
    let t = step lim s (receives g peer tx (some (WsClientMessage.update info))) in
    (
      ap (λ (r : Rooms). get (r.room g) peer.id)
            (view-step lim s (receives g peer tx (some (WsClientMessage.update info))) fits)
          ∙ ground (
            arith,
            ==-refl g,
            get-insert_self ((view s).room g) peer.id (record p { client = info }),
          ),
      receive_offer lim g peer tx m t later ∙ rw target,
    )
