-- ===== src/Server.antt =====
-- The signaling server's state and what it does with it: server/src/config/state.rs, scheduler.rs
-- and server/src/controller/ws_controller.rs. A function stands for one section under the lock of
-- `tx_map`, with the sends that follow it, in order.
pub mod IpGroup
mod Examples
pub mod Handler
pub mod Refines
pub mod Invariant
pub mod Rooms
pub mod Requests
pub mod Effects
pub mod Isolation
pub mod Presence
pub mod Leak
use magic_share.Base.{
  ℕ, ◌+◌, ◌%◌, ◌^◌, Bool, true, false, not, Option, none, some, List, [], ◌∷◌, ◌++◌, map, number_eq,
  list_eq, ◌==◌, leb, if◌then◌else◌, length,
}
use magic_share.Map.{HashMap, get, insert, remove}
use magic_share.Signaling.{
  Uuid, ClientInfo, ClientInfoWithoutId, client_info, without_id, WsServerMessage,
  WsServerSdpMessage, WsClientMessage, WsClientSdpMessage,
}

-- `MAX_CONNECTIONS` and `MAX_REQUESTS`, which the environment sets.
pub record Limits : Type 0 where
  pub max_connections : ℕ
  pub max_requests : ℕ

-- An IP group, by its code points.
abbrev pub Group : Type 0
Group = List ℕ

-- An `mpsc::Sender`, by the number of its channel.
abbrev pub Sender : Type 0
Sender = ℕ

pub record ClientState : Type 0 where
  pub client : ClientInfoWithoutId
  pub tx : Sender

abbrev pub LocalMap : Type 0
LocalMap = HashMap Uuid ClientState

pub record AppState : Type 0 where
  pub tx_map : HashMap Group LocalMap
  pub request_count_map : HashMap Group ℕ

-- `AppState::new`
abbrev pub new : AppState
new = record { tx_map = []; request_count_map = [] }

abbrev pub Send : Type 0
Send = Sender × WsServerMessage

-- `entry(k).or_insert(v)`: the value that is there, or the default.
abbrev pub or_insert {ℓ} : {A : Type ℓ} → Option A → A → A
or_insert none d = d
or_insert (some a) d = a

-- The state behind a lock, and whether the request may go on.
unfoldable pub protect_ddos_request_count : Limits → Group → AppState → AppState × Bool
protect_ddos_request_count lim g s =
    let count = or_insert (get s.request_count_map g) 0 in
    if leb lim.max_requests count
    then (record s { request_count_map = insert s.request_count_map g count }, false)
    else (
      record s { request_count_map = insert s.request_count_map g ((count + 1) % 2 ^ 32) },
      true,
    )

-- What a connecting socket gets: the text `Limit reached` and a close, or these sends.
pub data Admission : Type 0 where
  limit_reached : Admission
  admitted : List Send → Admission

abbrev pub senders : LocalMap → List Sender
senders = map λ e. e.1.tx

abbrev pub infos : LocalMap → List ClientInfo
infos = map λ e. client_info e.1.client e.0

abbrev pub broadcast : WsServerMessage → List Sender → List Send
broadcast m = map λ t. (t, m)

-- The first half of `handle_socket`: room limit, request limit, registration, `Join` to the
-- others and `Hello` to the new peer.
unfoldable pub connect : Limits → Group → ClientInfo → Sender → AppState → AppState × Admission
connect lim g peer tx s =
    let local = or_insert (get s.tx_map g) [] in
    let entered : AppState = record s { tx_map = insert s.tx_map g local } in
    if leb lim.max_connections (length local)
    then (entered, limit_reached)
    else let (counted, allowed) = protect_ddos_request_count lim g entered in
      if not allowed then (counted, limit_reached) else (
        record counted {
          tx_map =
              insert counted.tx_map g
                (insert local peer.id (record { client = without_id peer; tx = tx }));
        },
        admitted (
            broadcast (WsServerMessage.join peer) (senders local)
            ++ (tx, WsServerMessage.hello peer (infos local)) ∷ []),
      )

-- `filter(|(k, _)| *k != &peer_id)`
pub others : Uuid → LocalMap → LocalMap
others id [] = []
others id ((k, v) ∷ m) = let rest = others id m in if k == id then rest else (k, v) ∷ rest

update_local : Uuid → ClientInfoWithoutId → LocalMap → Option ClientState → Option LocalMap
update_local id info local none = none
update_local id info local (some p) = some (insert local id (record p { client = info }))

update_room : Group → Uuid → ClientInfoWithoutId → AppState → Option LocalMap → AppState × List Send
unfolding others
update_room g id info s none = (s, [])
update_room g id info s (some local) = (
  record s { tx_map = insert s.tx_map g local },
  broadcast (WsServerMessage.update (client_info info id)) (senders (others id local)),
)

abbrev pub and_then {ℓ κ} : {A : Type ℓ} {B : Type κ} → Option A → (A → Option B) → Option B
and_then none f = none
and_then (some a) f = f a

-- `send_update_to_other_peers_with_lock`
pub send_update_to_other_peers :
    Group → Uuid → ClientInfoWithoutId → AppState → AppState × List Send
unfolding update_local update_room
send_update_to_other_peers g id info s =
    update_room g id info s
      (and_then (get s.tx_map g) λ local. update_local id info local (get local id))

abbrev pub server_sdp : ClientInfo → WsClientSdpMessage → WsServerSdpMessage
server_sdp peer m = record { peer = peer; session_id = m.session_id; sdp = m.sdp }

forward : WsServerMessage → Option ClientState → List Send
forward m none = []
forward m (some p) = (p.tx, m) ∷ []

-- `send_to_peer_with_lock`, once the target and the message are taken out of the wrapper.
unfoldable pub send_to_peer : Group → Uuid → WsServerMessage → AppState → List Send
unfolding forward
send_to_peer g target m s = forward m (and_then (get s.tx_map g) λ local. get local target)

unfoldable pub dispatch : Group → ClientInfo → WsClientMessage → AppState → AppState × List Send
unfolding send_update_to_other_peers send_to_peer
dispatch g peer (WsClientMessage.update info) s = send_update_to_other_peers g peer.id info s
dispatch g peer (WsClientMessage.offer m) s =
    (s, send_to_peer g m.target (WsServerMessage.offer (server_sdp peer m)) s)
dispatch g peer (WsClientMessage.answer m) s =
    (s, send_to_peer g m.target (WsServerMessage.answer (server_sdp peer m)) s)

-- One round of `recv_task`: the new state, the sends, and whether the task goes on. A frame that
-- is no text or does not parse is `none`.
unfoldable pub receive :
    Limits
    → Group
    → ClientInfo
    → Sender
    → Option WsClientMessage
    → AppState
    → AppState × List Send × Bool
unfolding dispatch
receive lim g peer tx none s = (s, [], true)
receive lim g peer tx (some m) s =
    let (counted, allowed) = protect_ddos_request_count lim g s in
    if not allowed
    then (counted, (tx, WsServerMessage.error 429) ∷ [], false)
    else let (s', sends) = dispatch g peer m counted in (s', sends, true)

leave_room : Group → Uuid → AppState → Option LocalMap → AppState × List Send
leave_room g id s none = (s, [])
leave_room g id s (some local) = elim (remove local id) [
  | [] ↦ (record s { tx_map = remove s.tx_map g }, [])
  | e ∷ rest ↦ (
    record s { tx_map = insert s.tx_map g (e ∷ rest) },
    broadcast (WsServerMessage.left id) (senders (e ∷ rest)),
  )
]

-- The end of `handle_socket`, once one of its two tasks has stopped.
pub disconnect : Group → Uuid → AppState → AppState × List Send
unfolding leave_room
disconnect g id s = leave_room g id s (get s.tx_map g)

-- The hourly job of scheduler.rs.
pub clear_request_counts : AppState → AppState
clear_request_counts s = record s { request_count_map = [] }

-- What can happen at the server, in any order.
pub data Event : Type 0 where
  connects : Group → ClientInfo → Sender → Event
  receives : Group → ClientInfo → Sender → Option WsClientMessage → Event
  disconnects : Group → Uuid → Event
  hour : Event

unfoldable pub step : Limits → AppState → Event → AppState
step lim s (connects g peer tx) = (connect lim g peer tx s).0
step lim s (receives g peer tx m) = (receive lim g peer tx m s).0
step lim s (disconnects g id) = (disconnect g id s).0
step lim s hour = clear_request_counts s

pub run : Limits → AppState → List Event → AppState
run lim s [] = s
run lim s (e ∷ es) = run lim (step lim s e) es
