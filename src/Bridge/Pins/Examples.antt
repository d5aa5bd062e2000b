-- ===== src/Bridge/Pins/Examples.antt =====
-- The theorem on PINs where the session gives up a request, and where the app answers too early.
use magic_share.Base.{◌≡◌, refl, List, [], ◌∷◌, ok, err}
use magic_share.Bridge.Pins.{
  Event, asks, stores, sends, gives_up, run, store, send_pin, send_taken, send_on, no_requests,
}
use magic_share.Bridge.Pins.Once.{Rising, numbers, pins, pins_once}

abbrev evening : List Event
evening =
    asks
    ∷ sends "early"
    ∷ stores
    ∷ sends "123"
    ∷ asks
    ∷ stores
    ∷ gives_up 1
    ∷ sends "456"
    ∷ asks
    ∷ stores
    ∷ sends "789"
    ∷ []

results :
    (run evening no_requests).0
    ≡ ("early", err "Pin already sent")
      ∷ ("123", ok tt)
      ∷ ("456", err "Pin channel closed")
      ∷ ("789", ok tt)
      ∷ []
unfolding run store send_pin send_taken send_on
results = refl

pins_once_example :
    let d = (run evening no_requests).1 in
    Rising 0 d.next (numbers d.answered) × (pins d.answered ≡ "123" ∷ "789" ∷ [])
unfolding run store send_pin send_taken send_on
pins_once_example = pins_once evening
