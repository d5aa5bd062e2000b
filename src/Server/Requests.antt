-- ===== src/Server/Requests.antt =====
-- The request limit, as a client sees it: how many requests get through between two hours.
use magic_share.Base.{
  ℕ, ◌+◌, ◌≤◌, ◌≡◌, ap, ◌∙◌, Bool, true, false, none, some, List, [], ◌∷◌, number_eq, list_eq, ◌==◌,
  if◌then◌else◌, arith, ltb, All, list_test_iff,
}
use magic_share.Map.{get, insert}
use magic_share.Signaling.{ClientInfo, WsClientMessage}
use magic_share.Server.{
  Limits, Group, Sender, AppState, or_insert, Admission, limit_reached, admitted, connect, receive,
  Event, connects, receives, disconnects, hour, step,
}
use magic_share.Server.Rooms.{Rooms, view, admits, charge}
use magic_share.Server.Refines.{IsU32, view-step, allowed-protect, edit_requests}
use magic_share.Server.Invariant.{IsWithin, spec_step-IsWithin}

abbrev is_admitted : Admission → Bool
is_admitted limit_reached = false
is_admitted (admitted sends) = true

-- A peer is admitted exactly while its room has a place and its group a request left.
pub admitted-connect :
    (lim : Limits) (g : Group) (peer : ClientInfo) (tx : Sender) (s : AppState)
    → is_admitted (connect lim g peer tx s).1 ≡ admits lim (view s) g
unfolding connect
admitted-connect lim g peer tx s = ground (
  arith,
  allowed-protect lim g (record s { tx_map = insert s.tx_map g (or_insert (get s.tx_map g) []) }),
)

-- The receiving task goes on exactly while the group has a request left.
pub goes_on-receive :
    (lim : Limits) (g : Group) (peer : ClientInfo) (tx : Sender) (m : WsClientMessage)
    (s : AppState)
    → (receive lim g peer tx (some m) s).2 ≡ ltb ((view s).requests g) lim.max_requests
unfolding receive
goes_on-receive lim g peer tx m s = ground (arith, allowed-protect lim g s)

abbrev one : Bool → ℕ
one true = 1
one false = 0

-- Whether an event is a connection or a message of the group that the server lets through.
pub passes : Limits → Group → AppState → Event → Bool
passes lim g s (connects g' peer tx) =
    if g' == g then is_admitted (connect lim g' peer tx s).1 else false
passes lim g s (receives g' peer tx none) = false
passes lim g s (receives g' peer tx (some m)) =
    if g' == g then (receive lim g' peer tx (some m) s).2 else false
passes lim g s (disconnects g' id) = false
passes lim g s hour = false

pub served : Limits → Group → AppState → List Event → ℕ
served lim g s [] = 0
served lim g s (e ∷ es) = one (passes lim g s e) + served lim g (step lim s e) es

abbrev IsTick : Event → Type 0
IsTick hour = ⊥
IsTick _ = Unit {0}

requests-step :
    (lim : Limits) (g : Group) (s : AppState) (e : Event)
    → IsU32 lim
    → IsTick e
    → (view (step lim s e)).requests g ≡ (view s).requests g + one (passes lim g s e)
unfolding passes
requests-step lim g s (connects g' peer tx) fits t =
    ap (λ (r : Rooms). r.requests g) (view-step lim s (connects g' peer tx) fits)
    ∙ (ground (arith, admitted-connect lim g' peer tx s, list_test_iff g' g))
requests-step lim g s (receives g' peer tx none) fits t =
    omega
      (arith, ap (λ (r : Rooms). r.requests g) (view-step lim s (receives g' peer tx none) fits))
requests-step lim g s (receives g' peer tx (some m)) fits t =
    ap (λ (r : Rooms). r.requests g) (view-step lim s (receives g' peer tx (some m)) fits)
    ∙ (ground (
      arith,
      goes_on-receive lim g' peer tx m s,
      edit_requests (charge (view s) g') g' peer.id m g,
      list_test_iff g' g,
    ))
requests-step lim g s (disconnects g' id) fits t =
    omega (arith, ap (λ (r : Rooms). r.requests g) (view-step lim s (disconnects g' id) fits))
requests-step lim g s hour fits t = absurd t

step-IsWithin :
    (lim : Limits) (s : AppState) (e : Event)
    → IsU32 lim
    → IsWithin lim (view s)
    → IsWithin lim (view (step lim s e))
step-IsWithin lim s e fits v = rw (view-step lim s e fits) (spec_step-IsWithin lim (view s) e v)

-- Between two hours, the requests of an IP group that get through, connections and messages
-- together, are at most what its count had left of `max_requests`.
pub served_bound :
    (lim : Limits) (g : Group) (s : AppState) (es : List Event)
    → IsU32 lim
    → IsWithin lim (view s)
    → All IsTick es
    → (view s).requests g + served lim g s es ≤ lim.max_requests
unfolding served
served_bound lim g s [] fits v t = omega (arith, v.counts g)
served_bound lim g s (e ∷ es) fits v t = omega (
  arith,
  requests-step lim g s e fits t.0,
  served_bound lim g (step lim s e) es fits (step-IsWithin lim s e fits v) t.1,
)
