-- ===== src/Server/Rooms.antt =====
-- What the server promises: one room and one request count for each IP group. Whether the maps
-- hold an empty entry or none is forgotten.
use magic_share.Base.{
  ℕ, ◌+◌, ◌≡◌, refl, ap, Bool, true, false, ◌&&◌, Option, none, some, [], number_eq, list_eq, ◌==◌,
  if◌then◌else◌, length, ltb, list_test_iff,
}
use magic_share.Map.{get, insert, remove}
use magic_share.Map.Laws.{get-insert}
use magic_share.Signaling.{Uuid, ClientInfoWithoutId, WsClientMessage, without_id}
use magic_share.Server.{
  Limits, Group, ClientState, LocalMap, AppState, or_insert, Event, connects, receives, disconnects,
  hour,
}

pub record Rooms : Type 0 where
  pub room : Group → LocalMap
  pub requests : Group → ℕ

abbrev pub view : AppState → Rooms
view s = record {
  room = λ g. or_insert (get s.tx_map g) [];
  requests = λ g. or_insert (get s.request_count_map g) 0;
}

-- A function changed at one group.
abbrev pub at {ℓ} : {A : Type ℓ} → (Group → A) → Group → A → Group → A
at f g a h = if g == h then a else f h

abbrev pub admits : Limits → Rooms → Group → Bool
admits lim r g = ltb (length (r.room g)) lim.max_connections && ltb (r.requests g) lim.max_requests

abbrev pub charge : Rooms → Group → Rooms
charge r g = record r { requests = at r.requests g (r.requests g + 1) }

abbrev pub rename : Uuid → ClientInfoWithoutId → LocalMap → Option ClientState → LocalMap
rename id info l none = l
rename id info l (some p) = insert l id (record p { client = info })

-- Only an update changes a room; offers and answers are passed on.
abbrev pub edit : Rooms → Group → Uuid → WsClientMessage → Rooms
edit r g id (WsClientMessage.update info) = record r {
  room = at r.room g (rename id info (r.room g) (get (r.room g) id));
}
edit r g id (WsClientMessage.offer m) = r
edit r g id (WsClientMessage.answer m) = r

abbrev pub spec_step : Limits → Rooms → Event → Rooms
spec_step lim r (connects g peer tx) =
    if admits lim r g
    then (record (charge r g) {
      room = at r.room g (insert (r.room g) peer.id (record { client = without_id peer; tx = tx }));
    })
    else r
spec_step lim r (receives g peer tx none) = r
spec_step lim r (receives g peer tx (some m)) =
    if ltb (r.requests g) lim.max_requests then edit (charge r g) g peer.id m else r
spec_step lim r (disconnects g id) = record r { room = at r.room g (remove (r.room g) id) }
spec_step lim r hour = record r { requests = λ g. 0 }

pub Rooms-ext :
    {a b : Rooms}
    → ((g : Group) → a.room g ≡ b.room g)
    → ((g : Group) → a.requests g ≡ b.requests g)
    → a ≡ b
Rooms-ext h k = λ i. record { room = λ g. h g i; requests = λ g. k g i }

-- Writing back the value that is there, or the default, is not seen.
or_insert-get {ℓ} :
    {A : Type ℓ} (o : Option A) (d : A) (b : Bool) (p : Option A)
    → (b ≡ true → o ≡ p)
    → or_insert (if b then some (or_insert o d) else p) d ≡ or_insert p d
or_insert-get none d true p h = ap (λ q. or_insert q d) (h refl)
or_insert-get (some a) d true p h = ap (λ q. or_insert q d) (h refl)
or_insert-get o d false p h = refl

pub touch_room :
    (s : AppState) (g h : Group)
    → or_insert (get (insert s.tx_map g (or_insert (get s.tx_map g) [])) h) []
      ≡ or_insert (get s.tx_map h) []
touch_room s g h = rw get-insert (
    or_insert-get (get s.tx_map g) [] (g == h) (get s.tx_map h)
      (λ e. ap (get s.tx_map) ((list_test_iff g h).0 e)))

pub touch_count :
    (s : AppState) (g h : Group)
    → or_insert (get (insert s.request_count_map g (or_insert (get s.request_count_map g) 0)) h) 0
      ≡ or_insert (get s.request_count_map h) 0
touch_count s g h = rw get-insert (
    or_insert-get (get s.request_count_map g) 0 (g == h) (get s.request_count_map h)
      (λ e. ap (get s.request_count_map) ((list_test_iff g h).0 e)))
