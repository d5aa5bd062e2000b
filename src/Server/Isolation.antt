-- ===== src/Server/Isolation.antt =====
-- Peers of different IP groups do not meet.
use magic_share.Base.{
  ◌≡◌, refl, ◌≢◌, ◌⊎◌, inl, inr, ap, ◌∙◌, none, some, List, [], ◌∷◌, number_eq, list_eq, arith,
  Bool-cases, All, All-append, list_test_iff,
}
use magic_share.Map.{remove}
use magic_share.Signaling.{Uuid, ClientInfo, WsServerMessage, WsClientMessage}
use magic_share.Server.{
  Limits, Group, Sender, Send, AppState, senders, broadcast, protect_ddos_request_count, receive,
  Event, connects, receives, disconnects, hour, step,
}
use magic_share.Server.Rooms.{Rooms, view, admits, charge, edit, spec_step}
use magic_share.Server.Refines.{IsU32, view-step, allowed-protect, tx_map-protect, quota}
use magic_share.Server.Effects.{
  sends, Holds, Reaches, Holds-remove, All-broadcast, connect-sends, disconnect-sends,
  dispatch_stays,
}

module _ (P : Send → Type 0) (Q : Send → Type 0) (imp : (s : Send) → P s → Q s) where
  All-mono : (l : List Send) → All P l → All Q l
  All-mono [] h = tt
  All-mono (s ∷ l) h = (imp s h.0, All-mono l h.1)

receive_stays :
    (lim : Limits) (g : Group) (peer : ClientInfo) (tx : Sender) (m : WsClientMessage)
    (s : AppState)
    → All
        (λ (t : Send). (t.0 ≡ tx) ⊎ Holds ((view s).room g) t.0)
        (receive lim g peer tx (some m) s).1
unfolding receive
receive_stays lim g peer tx m s =
    let s' = (protect_ddos_request_count lim g s).0 in
    elim (Bool-cases (quota lim g s)) [
      | inl q ↦
          rw (allowed-protect lim g s, q)
            (All-mono (λ t. Holds ((view s').room g) t.0)
              (λ t. (t.0 ≡ tx) ⊎ Holds ((view s).room g) t.0)
              (λ t h. inr (rw (tx_map-protect lim g s) at h)) _ (dispatch_stays g peer tx m s'))
      | inr q ↦ rw (allowed-protect lim g s, q) (inl refl, tt)
    ]

-- Whatever an event sends goes to its own connection or to a peer of its own room.
pub sends_stay : (lim : Limits) (s : AppState) (e : Event) → All (Reaches s e) (sends lim s e)
unfolding sends
sends_stay lim s (connects g peer tx) = elim (Bool-cases (admits lim (view s) g)) [
  | inl a ↦
      rw (connect-sends lim g peer tx s, a)
        (All-append (Reaches s (connects g peer tx))
          (broadcast (WsServerMessage.join peer) (senders ((view s).room g))) _
          (All-broadcast (λ t. (t ≡ tx) ⊎ Holds ((view s).room g) t) _ ((view s).room g)
            (λ t h. inr h))
          (inl refl, tt))
  | inr a ↦ rw (connect-sends lim g peer tx s, a) tt
]
sends_stay lim s (receives g peer tx none) = unfold receive in tt
sends_stay lim s (receives g peer tx (some m)) = receive_stays lim g peer tx m s
sends_stay lim s (disconnects g id) = rw (disconnect-sends g id s) (
    All-broadcast (Holds ((view s).room g)) _ (remove ((view s).room g) id)
      (λ t h. Holds-remove t id ((view s).room g) h))
sends_stay lim s hour = tt

abbrev pub Concerns : Group → Event → Type 0
Concerns h (connects g peer tx) = g ≡ h
Concerns h (receives g peer tx m) = g ≡ h
Concerns h (disconnects g id) = g ≡ h
Concerns h hour = ⊥

edit_other :
    (r : Rooms) (g h : Group) (id : Uuid) (m : WsClientMessage)
    → g ≢ h
    → (edit r g id m).room h ≡ r.room h
edit_other r g h id (WsClientMessage.update info) n = ground (arith, list_test_iff g h)
edit_other r g h id (WsClientMessage.offer m) n = refl
edit_other r g h id (WsClientMessage.answer m) n = refl

spec_step_other :
    (lim : Limits) (r : Rooms) (e : Event) (h : Group)
    → ¬ Concerns h e
    → (spec_step lim r e).room h ≡ r.room h
spec_step_other lim r (connects g peer tx) h n = ground (arith, list_test_iff g h)
spec_step_other lim r (receives g peer tx none) h n = refl
spec_step_other lim r (receives g peer tx (some m)) h n =
    ground (arith, edit_other (charge r g) g h peer.id m n)
spec_step_other lim r (disconnects g id) h n = ground (arith, list_test_iff g h)
spec_step_other lim r hour h n = refl

-- An event of one IP group leaves the rooms of all others as they are.
pub room-step_other :
    (lim : Limits) (s : AppState) (e : Event) (h : Group)
    → IsU32 lim
    → ¬ Concerns h e
    → (view (step lim s e)).room h ≡ (view s).room h
room-step_other lim s e h fits n =
    ap (λ (r : Rooms). r.room h) (view-step lim s e fits) ∙ spec_step_other lim (view s) e h n
