-- ===== src/Server/Refines.antt =====
-- Every event does to the rooms what `spec_step` says.
use magic_share.Base.{
  ℕ, ◌+◌, ◌<◌, ◌^◌, ◌%◌, ◌≡◌, refl, ap, sym, ◌∙◌, Bool, none, some, List, [], ◌∷◌, number_eq,
  list_eq, if◌then◌else◌, arith, ltb, leb, inl, inr, Bool-cases, Option-cases, list_test_iff,
}
use magic_share.Map.{get, insert, remove}
use magic_share.Map.Laws.{get-insert, get-remove}
use magic_share.Signaling.{Uuid, ClientInfo, ClientInfoWithoutId, WsClientMessage, without_id}
use magic_share.Server.{
  Limits, Group, Sender, LocalMap, AppState, or_insert, protect_ddos_request_count, connect,
  send_update_to_other_peers, dispatch, receive, disconnect, clear_request_counts, Event, connects,
  receives, disconnects, hour, step, run,
}
use magic_share.Server.Rooms.{
  Rooms, view, at, charge, rename, edit, spec_step, Rooms-ext, touch_room, touch_count,
}

-- `MAX_REQUESTS` is a `u32`.
abbrev pub IsU32 : Limits → Type 0
IsU32 lim = lim.max_requests < 2 ^ 32

module _ (lim : Limits) (g : Group) (s : AppState) where
  abbrev pub quota : Bool
  quota = ltb ((view s).requests g) lim.max_requests

  pub tx_map-protect : (protect_ddos_request_count lim g s).0.tx_map ≡ s.tx_map
  unfolding protect_ddos_request_count
  tx_map-protect = ground arith

  pub allowed-protect : (protect_ddos_request_count lim g s).1 ≡ quota
  unfolding protect_ddos_request_count
  allowed-protect = ground arith

  pub requests-protect :
      IsU32 lim
      → (h : Group)
      → (view (protect_ddos_request_count lim g s).0).requests h
        ≡ (if quota then charge (view s) g else view s).requests h
  unfolding protect_ddos_request_count
  requests-protect fits h = elim (Bool-cases (leb lim.max_requests ((view s).requests g))) [
    | inl full ↦ ground (arith, touch_count s g h)
    | inr free ↦
        ground (arith, get-insert s.request_count_map g h (((view s).requests g + 1) % 2 ^ 32))
  ]

connect-Refines :
    (lim : Limits) (g : Group) (peer : ClientInfo) (tx : Sender) (s : AppState) (h : Group)
    → (view (connect lim g peer tx s).0).room h
      ≡ (spec_step lim (view s) (connects g peer tx)).room h
unfolding connect
connect-Refines lim g peer tx s h = ground (
  arith,
  touch_room s g h,
  tx_map-protect lim g (record s { tx_map = insert s.tx_map g (or_insert (get s.tx_map g) []) }),
  allowed-protect lim g (record s { tx_map = insert s.tx_map g (or_insert (get s.tx_map g) []) }),
  get-insert (insert s.tx_map g (or_insert (get s.tx_map g) [])) g h (
      insert (or_insert (get s.tx_map g) []) peer.id
        (record { client = without_id peer; tx = tx })),
)

connect-requests :
    (lim : Limits) (g : Group) (peer : ClientInfo) (tx : Sender) (s : AppState)
    → IsU32 lim
    → (h : Group)
    → (view (connect lim g peer tx s).0).requests h
      ≡ (spec_step lim (view s) (connects g peer tx)).requests h
unfolding connect
connect-requests lim g peer tx s fits h = ground (
  arith,
  allowed-protect lim g (record s { tx_map = insert s.tx_map g (or_insert (get s.tx_map g) []) }),
  requests-protect lim g (record s { tx_map = insert s.tx_map g (or_insert (get s.tx_map g) []) })
      fits h,
)

update-room :
    (g : Group) (id : Uuid) (info : ClientInfoWithoutId) (s : AppState) (h : Group)
    → (view (send_update_to_other_peers g id info s).0).room h
      ≡ at (view s).room g (rename id info ((view s).room g) (get ((view s).room g) id)) h
unfolding send_update_to_other_peers get
update-room g id info s h = elim (Option-cases (get s.tx_map g)) [
  | inl e ↦ ground (arith, list_test_iff g h)
  | inr (local, e) ↦ elim (Option-cases (get local id)) [
    | inl f ↦ ground (arith, list_test_iff g h)
    | inr (p, f) ↦ ground (
      arith,
      list_test_iff g h,
      get-insert s.tx_map g h (insert local id (record p { client = info })),
    )
  ]
]

update-requests :
    (g : Group) (id : Uuid) (info : ClientInfoWithoutId) (s : AppState)
    → (send_update_to_other_peers g id info s).0.request_count_map ≡ s.request_count_map
unfolding send_update_to_other_peers
update-requests g id info s = ground arith

disconnect-room :
    (g : Group) (id : Uuid) (s : AppState) (h : Group)
    → (view (disconnect g id s).0).room h ≡ at (view s).room g (remove ((view s).room g) id) h
unfolding disconnect remove
disconnect-room g id s h = elim (Option-cases (get s.tx_map g)) [
  | inl e ↦ ground (arith, list_test_iff g h)
  | inr (local, e) ↦
      ground (arith, get-remove s.tx_map g h, get-insert s.tx_map g h (remove local id))
]

disconnect-requests :
    (g : Group) (id : Uuid) (s : AppState)
    → (disconnect g id s).0.request_count_map ≡ s.request_count_map
unfolding disconnect
disconnect-requests g id s = ground arith

dispatch-room :
    (g : Group) (peer : ClientInfo) (m : WsClientMessage) (s : AppState) (h : Group)
    → (view (dispatch g peer m s).0).room h ≡ (edit (view s) g peer.id m).room h
unfolding dispatch
dispatch-room g peer (WsClientMessage.update info) s h = update-room g peer.id info s h
dispatch-room g peer (WsClientMessage.offer m) s h = refl
dispatch-room g peer (WsClientMessage.answer m) s h = refl

dispatch-requests :
    (g : Group) (peer : ClientInfo) (m : WsClientMessage) (s : AppState)
    → (dispatch g peer m s).0.request_count_map ≡ s.request_count_map
unfolding dispatch
dispatch-requests g peer (WsClientMessage.update info) s = update-requests g peer.id info s
dispatch-requests g peer (WsClientMessage.offer m) s = refl
dispatch-requests g peer (WsClientMessage.answer m) s = refl

-- An edit of the rooms neither reads nor changes the counts.
edit_room :
    (room : Group → LocalMap) (f k : Group → ℕ) (g : Group) (id : Uuid) (m : WsClientMessage)
    (h : Group)
    → (edit (record { room = room; requests = f }) g id m).room h
      ≡ (edit (record { room = room; requests = k }) g id m).room h
edit_room room f k g id (WsClientMessage.update info) h = refl
edit_room room f k g id (WsClientMessage.offer m) h = refl
edit_room room f k g id (WsClientMessage.answer m) h = refl

pub edit_requests :
    (r : Rooms) (g : Group) (id : Uuid) (m : WsClientMessage) (h : Group)
    → (edit r g id m).requests h ≡ r.requests h
edit_requests r g id (WsClientMessage.update info) h = refl
edit_requests r g id (WsClientMessage.offer m) h = refl
edit_requests r g id (WsClientMessage.answer m) h = refl

module _ (lim : Limits) (g : Group) (peer : ClientInfo) (tx : Sender) (s : AppState) where
  receive-room :
      (m : WsClientMessage) (h : Group)
      → (view (receive lim g peer tx (some m) s).0).room h
        ≡ (spec_step lim (view s) (receives g peer tx (some m))).room h
  unfolding receive
  receive-room m h =
      let s' = (protect_ddos_request_count lim g s).0 in
      elim (Bool-cases (quota lim g s)) [
        | inl q ↦
            rw (q, allowed-protect lim g s, q, dispatch-room g peer m s' h, tx_map-protect lim g s)
              (edit_room (view s).room _ _ g peer.id m h)
        | inr q ↦ rw (q, allowed-protect lim g s, q, tx_map-protect lim g s)
      ]

  receive-requests :
      IsU32 lim
      → (m : WsClientMessage) (h : Group)
      → (view (receive lim g peer tx (some m) s).0).requests h
        ≡ (spec_step lim (view s) (receives g peer tx (some m))).requests h
  unfolding receive
  receive-requests fits m h =
      let s' = (protect_ddos_request_count lim g s).0 in
      elim (Bool-cases (quota lim g s)) [
        | inl q ↦
            rw (q, allowed-protect lim g s, q, dispatch-requests g peer m s')
              (requests-protect lim g s fits h
                ∙ rw q (sym (edit_requests (charge (view s) g) g peer.id m h)))
        | inr q ↦ rw (q, allowed-protect lim g s, q) (requests-protect lim g s fits h ∙ rw q)
      ]

-- Each event of the server, seen as rooms and counts, is the step of the specification.
pub view-step :
    (lim : Limits) (s : AppState) (e : Event)
    → IsU32 lim
    → view (step lim s e) ≡ spec_step lim (view s) e
unfolding step
view-step lim s (connects g peer tx) fits =
    Rooms-ext (connect-Refines lim g peer tx s) (connect-requests lim g peer tx s fits)
view-step lim s (receives g peer tx none) fits = unfold receive in refl
view-step lim s (receives g peer tx (some m)) fits =
    Rooms-ext (receive-room lim g peer tx s m) (receive-requests lim g peer tx s fits m)
view-step lim s (disconnects g id) fits =
    Rooms-ext (disconnect-room g id s) (λ h. rw (disconnect-requests g id s))
view-step lim s hour fits = unfold clear_request_counts get in refl

unfoldable pub spec_run : Limits → Rooms → List Event → Rooms
spec_run lim r [] = r
spec_run lim r (e ∷ es) = spec_run lim (spec_step lim r e) es

-- From any state, and for limits that fit an u32, any history of the server, seen as rooms and
-- request counts, is the history of the abstract server over the same events.
pub view-run :
    (lim : Limits) (s : AppState) (es : List Event)
    → IsU32 lim
    → view (run lim s es) ≡ spec_run lim (view s) es
unfolding run spec_run
view-run lim s [] fits = refl
view-run lim s (e ∷ es) fits =
    view-run lim (step lim s e) es fits ∙ ap (λ r. spec_run lim r es) (view-step lim s e fits)
