-- ===== src/Server/Leak.antt =====
-- A connection that is refused can leave an empty room behind.
use magic_share.Base.{suc, ◌<◌, ◌≡◌, false, none, some, [], number_eq, list_eq, arith, length}
use magic_share.Map.{get, insert}
use magic_share.Map.Laws.{get-insert_self, length-insert_new}
use magic_share.Signaling.{ClientInfo}
use magic_share.Server.{Limits, Group, Sender, AppState, limit_reached, connect}
use magic_share.Server.Refines.{allowed-protect, tx_map-protect, quota}

-- A group with no room that is out of requests is refused, and yet the map of rooms grows by an
-- empty room for it.
pub refusal_leaves_room :
    (lim : Limits) (g : Group) (peer : ClientInfo) (tx : Sender) (s : AppState)
    → 0 < lim.max_connections
    → get s.tx_map g ≡ none
    → quota lim g s ≡ false
    → let (s', admission) = connect lim g peer tx s in
      (admission ≡ limit_reached)
      × (get s'.tx_map g ≡ some [])
      × (length s'.tx_map ≡ suc (length s.tx_map))
unfolding connect
refusal_leaves_room lim g peer tx s places absent spent =
    let s' : AppState = record s { tx_map = insert s.tx_map g [] } in
    ground (
      arith,
      allowed-protect lim g s',
      tx_map-protect lim g s',
      get-insert_self s.tx_map g [],
      length-insert_new s.tx_map g [] absent,
    )
