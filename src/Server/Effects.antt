-- ===== src/Server/Effects.antt =====
-- Who is told what: the sends that follow each section under the lock.
use magic_share.Base.{
  ◌≡◌, refl, ◌⊎◌, inl, inr, Option, none, some, List, [], ◌∷◌, ◌++◌, number_eq, list_eq,
  if◌then◌else◌, arith, Option-cases, All,
}
use magic_share.Map.{get, insert, remove}
use magic_share.Map.Laws.{remove-insert}
use magic_share.Signaling.{
  Uuid, ClientInfo, ClientInfoWithoutId, client_info, WsServerMessage, WsClientMessage,
}
use magic_share.Server.{
  Limits, Group, Sender, Send, ClientState, LocalMap, AppState, or_insert, senders, infos,
  broadcast, others, Admission, limit_reached, admitted, connect, send_update_to_other_peers,
  send_to_peer, server_sdp, dispatch, receive, disconnect, Event, connects, receives, disconnects,
  hour,
}
use magic_share.Server.Rooms.{view, admits}
use magic_share.Server.Refines.{allowed-protect}

abbrev pub admission_sends : Admission → List Send
admission_sends limit_reached = []
admission_sends (admitted sends) = sends

-- What an event sends.
unfoldable pub sends : Limits → AppState → Event → List Send
sends lim s (connects g peer tx) = admission_sends (connect lim g peer tx s).1
sends lim s (receives g peer tx m) = (receive lim g peer tx m s).1
sends lim s (disconnects g id) = (disconnect g id s).1
sends lim s hour = []

-- The sender is that of a peer of the room.
abbrev pub Holds : LocalMap → Sender → Type 0
Holds [] t = ⊥
Holds (e ∷ l) t = (t ≡ e.1.tx) ⊎ Holds l t

-- The event's own connection, or a peer of its room.
abbrev pub Reaches : AppState → Event → Send → Type 0
Reaches s (connects g peer tx) m = (m.0 ≡ tx) ⊎ Holds ((view s).room g) m.0
Reaches s (receives g peer tx c) m = (m.0 ≡ tx) ⊎ Holds ((view s).room g) m.0
Reaches s (disconnects g id) m = Holds ((view s).room g) m.0
Reaches s hour m = ⊥

pub Holds-remove : (t : Sender) (id : Uuid) (l : LocalMap) → Holds (remove l id) t → Holds l t
unfolding remove
Holds-remove t id [] h = h
Holds-remove t id ((k, v) ∷ l) h = ground (arith, Holds-remove t id l)

-- A broadcast to a room keeps to whatever holds of the room's senders.
pub All-broadcast :
    (P : Sender → Type 0) (m : WsServerMessage) (l : LocalMap)
    → ((t : Sender) → Holds l t → P t)
    → All (λ (s : Send). P s.0) (broadcast m (senders l))
All-broadcast P m [] h = tt
All-broadcast P m (e ∷ l) h = (h e.1.tx (inl refl), All-broadcast P m l (λ t x. h t (inr x)))

pub Holds-get : (l : LocalMap) (id : Uuid) (p : ClientState) → get l id ≡ some p → Holds l p.tx
unfolding get
Holds-get [] id p h = cc
Holds-get ((k, v) ∷ l) id p h = ground (arith, Holds-get l id p)

pub others-eq-remove : (id : Uuid) (l : LocalMap) → others id l ≡ remove l id
unfolding others remove
others-eq-remove id [] = refl
others-eq-remove id ((k, v) ∷ l) = ground (arith, others-eq-remove id l)

-- An update is told to everybody else in the room, if its author is still there.
pub update-sends :
    (g : Group) (id : Uuid) (info : ClientInfoWithoutId) (s : AppState)
    → (send_update_to_other_peers g id info s).1 ≡ elim (get ((view s).room g) id) [
      | none ↦ []
      | some p ↦
          broadcast
            (WsServerMessage.update (client_info info id))
            (senders (remove ((view s).room g) id))
    ]
unfolding send_update_to_other_peers get
update-sends g id info s = elim (Option-cases (get s.tx_map g)) [
  | inl e ↦ rw (e, send_update_to_other_peers)
  | inr (local, e) ↦ elim (Option-cases (get local id)) [
    | inl f ↦ ground arith
    | inr (p, f) ↦
        let l' = insert local id (record p { client = info }) in
        ground (arith, others-eq-remove id l', remove-insert local id (record p { client = info }))
  ]
]

-- A leaving peer is announced to those who stay.
pub disconnect-sends :
    (g : Group) (id : Uuid) (s : AppState)
    → (disconnect g id s).1
      ≡ broadcast (WsServerMessage.left id) (senders (remove ((view s).room g) id))
unfolding disconnect remove
disconnect-sends g id s = elim (Option-cases (get s.tx_map g)) [
  | inl e ↦ rw (e, disconnect)
  | inr (local, e) ↦ ground arith
]

-- A new peer is announced to the room, and is told who was there.
pub connect-sends :
    (lim : Limits) (g : Group) (peer : ClientInfo) (tx : Sender) (s : AppState)
    → (connect lim g peer tx s).1 ≡ (
        if admits lim (view s) g
        then admitted (
            broadcast (WsServerMessage.join peer) (senders ((view s).room g))
            ++ (tx, WsServerMessage.hello peer (infos ((view s).room g))) ∷ [])
        else limit_reached)
unfolding connect
connect-sends lim g peer tx s = ground (
  arith,
  allowed-protect lim g (record s { tx_map = insert s.tx_map g (or_insert (get s.tx_map g) []) }),
)

pub forward-sends :
    (g : Group) (target : Uuid) (m : WsServerMessage) (s : AppState)
    → send_to_peer g target m s
      ≡ elim (get ((view s).room g) target) [ none ↦ [] | some p ↦ (p.tx, m) ∷ [] ]
unfolding send_to_peer get
forward-sends g target m s = elim (Option-cases (get s.tx_map g)) [
  | inl e ↦ rw (e, send_to_peer)
  | inr (local, e) ↦ ground arith
]

forward_stays :
    (g : Group) (target : Uuid) (m : WsServerMessage) (s : AppState)
    → All
        (λ (t : Send). Holds ((view s).room g) t.0)
        (elim (get ((view s).room g) target) [ none ↦ [] | some p ↦ (p.tx, m) ∷ [] ])
forward_stays g target m s = elim (Option-cases (get ((view s).room g) target)) [
  | inl e ↦ rw e tt
  | inr (p, e) ↦ rw e (Holds-get ((view s).room g) target p e, tt)
]

pub dispatch_stays :
    (g : Group) (peer : ClientInfo) (tx : Sender) (m : WsClientMessage) (s : AppState)
    → All (λ (t : Send). Holds ((view s).room g) t.0) (dispatch g peer m s).1
unfolding dispatch
dispatch_stays g peer tx (WsClientMessage.update info) s =
    rw (update-sends g peer.id info s) (go (get ((view s).room g) peer.id))
  where
    go :
        (o : Option ClientState)
        → All
            (λ (t : Send). Holds ((view s).room g) t.0)
            (elim o [
              | none ↦ []
              | some p ↦
                  broadcast
                    (WsServerMessage.update (client_info info peer.id))
                    (senders (remove ((view s).room g) peer.id))
            ])
    go none = tt
    go (some p) =
        All-broadcast (Holds ((view s).room g)) _ (remove ((view s).room g) peer.id)
          (λ t h. Holds-remove t peer.id ((view s).room g) h)
dispatch_stays g peer tx (WsClientMessage.offer m) s =
    rw (forward-sends g m.target (WsServerMessage.offer (server_sdp peer m)) s)
      (forward_stays g m.target _ s)
dispatch_stays g peer tx (WsClientMessage.answer m) s =
    rw (forward-sends g m.target (WsServerMessage.answer (server_sdp peer m)) s)
      (forward_stays g m.target _ s)
