-- ===== src/Bridge/Pins.antt =====
-- app/rust/src/api/webrtc.rs: how a PIN of the app reaches a session (`send_pin` of the two
-- controllers, and the task behind `pin_rx`). The session asks with a new channel each time; a
-- channel is known by its number.
pub mod Once
mod Examples
use magic_share.Base.{
  ℕ, ◌+◌, ◌||◌, Bool, true, false, String, Option, none, some, List, [], ◌∷◌, ◌++◌, Result, ok, err,
  eqb,
}

-- `queue` is what waits in `pin_rx`, `pin_tx` the controller's slot, `next` the number of channels
-- made, `answered` what was sent on them, and `closed` those that the session waits on no more.
pub record PinDesk : Type 0 where
  pub queue : List ℕ
  pub pin_tx : Option ℕ
  pub next : ℕ
  pub answered : List (ℕ × String)
  pub closed : List ℕ

-- The session asks, the task moves a request to the slot, the app sends, the session gives up.
pub data Event : Type 0 where
  asks stores : Event
  sends : String → Event
  gives_up : ℕ → Event

abbrev pub is_closed : List ℕ → ℕ → Bool
is_closed [] i = false
is_closed (j ∷ closed) i = eqb j i || is_closed closed i

-- `oneshot::Sender::send`
unfoldable pub send_on : String → ℕ → Bool → PinDesk → Result (Unit {0}) × PinDesk
send_on pin i true d = (err "Pin channel closed", d)
send_on pin i false d = (ok tt, record d { answered = d.answered ++ (i, pin) ∷ [] })

unfoldable pub send_taken : String → Option ℕ → PinDesk → Result (Unit {0}) × PinDesk
unfolding send_on
send_taken pin none d = (err "Pin already sent", d)
send_taken pin (some i) d = send_on pin i (is_closed d.closed i) d

-- `send_pin`
unfoldable pub send_pin : String → PinDesk → Result (Unit {0}) × PinDesk
unfolding send_taken
send_pin pin d = send_taken pin d.pin_tx (record d { pin_tx = none })

-- A turn of `while let Some(pin_tx) = pin_rx.recv().await`
unfoldable pub store : List ℕ → PinDesk → PinDesk
store [] d = d
store (i ∷ rest) d = record d { queue = rest; pin_tx = some i }

abbrev pub step : Event → PinDesk → PinDesk
step asks d = record d { queue = d.queue ++ d.next ∷ []; next = d.next + 1 }
step stores d = store d.queue d
step (sends pin) d = (send_pin pin d).1
step (gives_up i) d = record d { closed = i ∷ d.closed }

-- What the app was told of each PIN that it sent.
abbrev pub told : Event → PinDesk → List (String × Result (Unit {0}))
told (sends pin) d = (pin, (send_pin pin d).0) ∷ []
told _ d = []

unfoldable pub run : List Event → PinDesk → List (String × Result (Unit {0})) × PinDesk
run [] d = ([], d)
run (e ∷ es) d = let (rest, end) = run es (step e d) in (told e d ++ rest, end)

abbrev pub no_requests : PinDesk
no_requests = record { queue = []; pin_tx = none; next = 0; answered = []; closed = [] }
