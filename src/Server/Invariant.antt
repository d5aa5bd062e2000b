-- ===== src/Server/Invariant.antt =====
-- Rooms and request counts stay within their limits, whatever happens and in whatever order.
use magic_share.Base.{
  ℕ, ◌≤◌, ◌≡◌, none, some, List, [], ◌∷◌, number_eq, list_eq, length, arith, inl, inr, Option-cases,
}
use magic_share.Map.{get}
use magic_share.Map.Laws.{length-insert_le, length-insert_old, length-remove-le}
use magic_share.Signaling.{Uuid, ClientInfoWithoutId, WsClientMessage, without_id}
use magic_share.Server.{
  Limits, Group, LocalMap, new, Event, connects, receives, disconnects, hour, run,
}
use magic_share.Server.Rooms.{Rooms, view, charge, rename, edit, spec_step}
use magic_share.Server.Refines.{IsU32, view-run, spec_run}

pub record IsWithin (lim : Limits) (r : Rooms) : Type 0 where
  pub rooms : (g : Group) → length (r.room g) ≤ lim.max_connections
  pub counts : (g : Group) → r.requests g ≤ lim.max_requests

length-rename :
    (id : Uuid) (info : ClientInfoWithoutId) (l : LocalMap)
    → length (rename id info l (get l id)) ≡ length l
length-rename id info l = elim (Option-cases (get l id)) [
  | inl e ↦ rw e
  | inr (p, e) ↦ rw e (length-insert_old l id (record p { client = info }) e)
]

module _ (lim : Limits) (r : Rooms) (v : IsWithin lim r) (h : Group) where
  edit_within :
      (f : Group → ℕ) (g : Group) (id : Uuid) (m : WsClientMessage)
      → length ((edit (record r { requests = f }) g id m).room h) ≤ lim.max_connections
  edit_within f g id (WsClientMessage.update info) =
      ground (arith, length-rename id info (r.room g), v.rooms g, v.rooms h)
  edit_within f g id (WsClientMessage.offer m) = v.rooms h
  edit_within f g id (WsClientMessage.answer m) = v.rooms h

  edit_counts :
      (f : Group → ℕ) (g : Group) (id : Uuid) (m : WsClientMessage)
      → f h ≤ lim.max_requests
      → (edit (record r { requests = f }) g id m).requests h ≤ lim.max_requests
  edit_counts f g id (WsClientMessage.update info) b = b
  edit_counts f g id (WsClientMessage.offer m) b = b
  edit_counts f g id (WsClientMessage.answer m) b = b

  spec_step-rooms : (e : Event) → length ((spec_step lim r e).room h) ≤ lim.max_connections
  spec_step-rooms (connects g peer tx) = ground (
    arith,
    length-insert_le (r.room g) peer.id (record { client = without_id peer; tx = tx }),
    v.rooms h,
  )
  spec_step-rooms (receives g peer tx none) = v.rooms h
  spec_step-rooms (receives g peer tx (some m)) =
      ground (arith, v.rooms h, edit_within (charge r g).requests g peer.id m)
  spec_step-rooms (disconnects g id) =
      ground (arith, v.rooms g, v.rooms h, length-remove-le (r.room g) id)
  spec_step-rooms hour = v.rooms h

  spec_step-counts : (e : Event) → (spec_step lim r e).requests h ≤ lim.max_requests
  spec_step-counts (connects g peer tx) = ground (arith, v.counts h)
  spec_step-counts (receives g peer tx none) = v.counts h
  spec_step-counts (receives g peer tx (some m)) =
      ground (arith, v.counts h, edit_counts (charge r g).requests g peer.id m)
  spec_step-counts (disconnects g id) = v.counts h
  spec_step-counts hour = omega arith

pub spec_step-IsWithin :
    (lim : Limits) (r : Rooms) (e : Event) → IsWithin lim r → IsWithin lim (spec_step lim r e)
spec_step-IsWithin lim r e v = record {
  rooms = λ g. spec_step-rooms lim r v g e;
  counts = λ g. spec_step-counts lim r v g e;
}

spec_run-IsWithin :
    (lim : Limits) (r : Rooms) (es : List Event) → IsWithin lim r → IsWithin lim (spec_run lim r es)
unfolding spec_run
spec_run-IsWithin lim r [] v = v
spec_run-IsWithin lim r (e ∷ es) v =
    spec_run-IsWithin lim (spec_step lim r e) es (spec_step-IsWithin lim r e v)

new-IsWithin : (lim : Limits) → IsWithin lim (view new)
unfolding get
new-IsWithin lim = record { rooms = λ g. omega arith; counts = λ g. omega arith }

-- From the fresh state, after any events in any order, no IP group has more than
-- `max_connections` peers, and none has been counted more than `max_requests` requests.
pub run-IsWithin :
    (lim : Limits) (es : List Event) → IsU32 lim → IsWithin lim (view (run lim new es))
run-IsWithin lim es fits =
    rw (view-run lim new es fits) (spec_run-IsWithin lim (view new) es (new-IsWithin lim))
