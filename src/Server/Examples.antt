-- ===== src/Server/Examples.antt =====
-- Runs of the signaling server, and its theorems at concrete inputs.
use magic_share.Base.{
  ℕ, ◌≡◌, refl, ◌↔◌, none, some, List, [], ◌∷◌, arith, number_eq, list_eq, ◌≤◌, ◌+◌, All, length,
  codes,
}
use magic_share.Map.{get}
use magic_share.Signaling.{ClientInfo, ClientInfoWithoutId, WsClientMessage, WsClientSdpMessage}
use magic_share.Server.{
  Limits, Group, AppState, new, Event, connects, receives, disconnects, step, run, connect,
  limit_reached,
}
use magic_share.Server.Rooms.{view}
use magic_share.Server.Refines.{view-run, spec_run}
use magic_share.Server.Invariant.{IsWithin, run-IsWithin}
use magic_share.Server.Requests.{served, served_bound}
use magic_share.Server.Effects.{Reaches, sends}
use magic_share.Server.Isolation.{sends_stay}
use magic_share.Server.Leak.{refusal_leaves_room}
use magic_share.Server.IpGroup.{v4, v6, get_ip_group, get_ip_group_iff, SameGroup}

abbrev limits : Limits
limits = record { max_connections = 2; max_requests = 3 }

abbrev home : Group
home = 49 ∷ []

abbrev office : Group
office = 50 ∷ []

abbrev peer : ℕ → ClientInfo
peer n = record {
  id = n;
  alias = "Cute Apple";
  version = "2.3";
  device_model = none;
  device_type = none;
  token = "123";
}

abbrev renamed : ClientInfoWithoutId
renamed = record {
  alias = "Fast Pear";
  version = "2.3";
  device_model = none;
  device_type = none;
  token = "123";
}

abbrev call : ℕ → WsClientSdpMessage
call n = record { session_id = "s"; target = n; sdp = "sdp" }

abbrev two_join : List Event
two_join = connects home (peer 1) 10 ∷ connects home (peer 2) 20 ∷ []

abbrev solo : AppState
solo = step limits new (connects home (peer 1) 10)

-- The same with room for more requests.
abbrev roomy : Limits
roomy = record { max_connections = 2; max_requests = 9 }

abbrev crowd : AppState
crowd = run limits new two_join

view-run_example : view (run limits new two_join) ≡ spec_run limits (view new) two_join
view-run_example = view-run limits new two_join (omega arith)

run-IsWithin_example : IsWithin limits (view crowd)
run-IsWithin_example = run-IsWithin limits two_join (omega arith)

served_bound_example :
    (view crowd).requests home
      + served limits home crowd
          (receives home (peer 1) 10 (some (WsClientMessage.offer (call 2))) ∷ [])
    ≤ 3
served_bound_example =
    served_bound limits home crowd
      (receives home (peer 1) 10 (some (WsClientMessage.offer (call 2))) ∷ []) (omega arith)
      run-IsWithin_example (tt, tt)

sends_stay_example :
    All (Reaches crowd (disconnects home 1)) (sends limits crowd (disconnects home 1))
sends_stay_example = sends_stay limits crowd (disconnects home 1)

roomy_after_update : AppState
roomy_after_update =
    step roomy (run roomy new two_join)
      (receives home (peer 1) 10 (some (WsClientMessage.update renamed)))

-- The group has spent its requests and has no room.
abbrev spent : AppState
spent = record { tx_map = []; request_count_map = (home, 3) ∷ [] }

refusal_leaves_room_example :
    ((connect limits home (peer 1) 10 spent).1 ≡ limit_reached)
    × (get (connect limits home (peer 1) 10 spent).0.tx_map home ≡ some [])
    × (length (connect limits home (peer 1) 10 spent).0.tx_map ≡ 1)
unfolding get
refusal_leaves_room_example =
    refusal_leaves_room limits home (peer 1) 10 spent (omega arith) refl refl

get_ip_group_iff_example :
    (get_ip_group (v6 10 11 12 13 (14 ∷ 15 ∷ 0 ∷ 1 ∷ [])) ≡ get_ip_group (v6 10 11 12 13 []))
    ↔ SameGroup (v6 10 11 12 13 (14 ∷ 15 ∷ 0 ∷ 1 ∷ [])) (v6 10 11 12 13 [])
get_ip_group_iff_example =
    get_ip_group_iff (v6 10 11 12 13 (14 ∷ 15 ∷ 0 ∷ 1 ∷ [])) (v6 10 11 12 13 []) (omega arith)
      (omega arith)

-- The repository's own tests of `get_ip_group`.
group_of_v4 : get_ip_group (v4 1 2 3 4) ≡ codes "1.2.3.4"
unfolding get_ip_group
group_of_v4 = refl

group_of_v6 : get_ip_group (v6 10 11 12 13 (14 ∷ 15 ∷ 0 ∷ 1 ∷ [])) ≡ codes "a:b:c:d"
unfolding get_ip_group
group_of_v6 = refl
