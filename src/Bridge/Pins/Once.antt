-- ===== src/Bridge/Pins/Once.antt =====
-- A PIN answers one request, and a request is answered once.
use magic_share.Base.{
  ℕ, ◌+◌, ◌≤◌, ◌≡◌, refl, ap, sym, ◌∙◌, Bool, true, false, String, Option, none, some, List, [],
  ◌∷◌, ◌++◌, append_assoc, append-nil, map, Result, ok, err, arith,
}
use magic_share.Bridge.Pins.{
  PinDesk, Event, asks, stores, sends, gives_up, is_closed, send_on, send_taken, send_pin, store,
  step, told, run, no_requests,
}

-- Numbers of the range from lo on and below hi, each above the one before it.
abbrev pub Rising : ℕ → ℕ → List ℕ → Type 0
Rising lo hi [] = lo ≤ hi
Rising lo hi (i ∷ l) = (lo ≤ i) × Rising (i + 1) hi l

Rising-lower : (lo lo' hi : ℕ) (l : List ℕ) → lo ≤ lo' → Rising lo' hi l → Rising lo hi l
Rising-lower lo lo' hi [] b h = omega arith
Rising-lower lo lo' hi (i ∷ l) b h = (omega arith, h.1)

Rising-next : (lo hi : ℕ) (l : List ℕ) → Rising lo hi l → Rising lo (hi + 1) (l ++ hi ∷ [])
Rising-next lo hi [] h = (h, omega arith)
Rising-next lo hi (i ∷ l) h = (h.0, Rising-next (i + 1) hi l h.1)

Rising-drop :
    (lo hi : ℕ) (a : List ℕ) (i : ℕ) (b : List ℕ)
    → Rising lo hi (a ++ i ∷ b)
    → Rising lo hi (a ++ b)
Rising-drop lo hi [] i b h = Rising-lower lo (i + 1) hi b (omega arith) h.1
Rising-drop lo hi (j ∷ a) i b h = (h.0, Rising-drop (j + 1) hi a i b h.1)

Rising-start : (lo hi : ℕ) (a b : List ℕ) → Rising lo hi (a ++ b) → Rising lo hi a
Rising-start lo hi [] [] h = h
Rising-start lo hi [] (i ∷ b) h =
    Rising-start lo hi [] b (Rising-lower lo (i + 1) hi b (omega arith) h.1)
Rising-start lo hi (i ∷ a) b h = (h.0, Rising-start (i + 1) hi a b h.1)

abbrev slot : Option ℕ → List ℕ
slot none = []
slot (some i) = i ∷ []

abbrev pub numbers : List (ℕ × String) → List ℕ
numbers = map λ a. a.0

abbrev pub pins : List (ℕ × String) → List String
pins = map λ a. a.1

-- The requests in the order in which they were made: answered, in the slot, and waiting.
abbrev InOrder : PinDesk → Type 0
InOrder d = Rising 0 d.next (numbers d.answered ++ (slot d.pin_tx ++ d.queue))

numbers-append : (a b : List (ℕ × String)) → numbers (a ++ b) ≡ numbers a ++ numbers b
numbers-append [] b = refl
numbers-append (x ∷ a) b = ap (◌∷◌ x.0) (numbers-append a b)

slot-Rising :
    (hi : ℕ) (a : List ℕ) (o : Option ℕ) (q : List ℕ)
    → Rising 0 hi (a ++ (slot o ++ q))
    → Rising 0 hi (a ++ q)
slot-Rising hi a none q h = h
slot-Rising hi a (some i) q h = Rising-drop 0 hi a i q h

store-InOrder : (q : List ℕ) (d : PinDesk) → d.queue ≡ q → InOrder d → InOrder (store q d)
unfolding store
store-InOrder [] d e h = h
store-InOrder (i ∷ rest) d e h =
    slot-Rising d.next (numbers d.answered) d.pin_tx (i ∷ rest) (rw e at h)

send_on-InOrder :
    (pin : String) (i : ℕ) (closed : Bool) (d : PinDesk)
    → Rising 0 d.next (numbers d.answered ++ i ∷ d.queue)
    → InOrder (send_on pin i closed (record d { pin_tx = none })).1
unfolding send_on
send_on-InOrder pin i true d h = Rising-drop 0 d.next (numbers d.answered) i d.queue h
send_on-InOrder pin i false d h =
    rw (numbers-append, append_assoc (numbers d.answered) (i ∷ []) d.queue) h

send_taken-InOrder :
    (pin : String) (o : Option ℕ) (d : PinDesk)
    → Rising 0 d.next (numbers d.answered ++ (slot o ++ d.queue))
    → InOrder (send_taken pin o (record d { pin_tx = none })).1
unfolding send_taken
send_taken-InOrder pin none d h = h
send_taken-InOrder pin (some i) d h = send_on-InOrder pin i (is_closed d.closed i) d h

step-InOrder : (e : Event) (d : PinDesk) → InOrder d → InOrder (step e d)
unfolding send_pin
step-InOrder asks d h =
    let asked = Rising-next 0 d.next (numbers d.answered ++ (slot d.pin_tx ++ d.queue)) h in
    rw
      (
        append_assoc (numbers d.answered) (slot d.pin_tx ++ d.queue) (d.next ∷ []),
        append_assoc (slot d.pin_tx) d.queue (d.next ∷ []),
      )
      at asked
step-InOrder stores d h = store-InOrder d.queue d refl h
step-InOrder (sends pin) d h = send_taken-InOrder pin d.pin_tx d h
step-InOrder (gives_up i) d h = h

-- The PINs that the app was told were sent.
abbrev pub oks : List (String × Result (Unit {0})) → List String
oks [] = []
oks ((pin, ok u) ∷ rest) = pin ∷ oks rest
oks ((pin, err e) ∷ rest) = oks rest

oks-append : (a b : List (String × Result (Unit {0}))) → oks (a ++ b) ≡ oks a ++ oks b
oks-append [] b = refl
oks-append ((pin, ok u) ∷ a) b = ap (◌∷◌ pin) (oks-append a b)
oks-append ((pin, err e) ∷ a) b = oks-append a b

pins-append : (a b : List (ℕ × String)) → pins (a ++ b) ≡ pins a ++ pins b
pins-append [] b = refl
pins-append (x ∷ a) b = ap (◌∷◌ x.1) (pins-append a b)

send_on-oks :
    (pin : String) (i : ℕ) (closed : Bool) (d : PinDesk)
    → pins (send_on pin i closed d).1.answered
      ≡ pins d.answered ++ oks ((pin, (send_on pin i closed d).0) ∷ [])
unfolding send_on
send_on-oks pin i true d = sym (append-nil (pins d.answered))
send_on-oks pin i false d = pins-append d.answered ((i, pin) ∷ [])

send_taken-oks :
    (pin : String) (o : Option ℕ) (d : PinDesk)
    → pins (send_taken pin o d).1.answered
      ≡ pins d.answered ++ oks ((pin, (send_taken pin o d).0) ∷ [])
unfolding send_taken
send_taken-oks pin none d = sym (append-nil (pins d.answered))
send_taken-oks pin (some i) d = send_on-oks pin i (is_closed d.closed i) d

store-answered : (q : List ℕ) (d : PinDesk) → (store q d).answered ≡ d.answered
unfolding store
store-answered [] d = refl
store-answered (i ∷ q) d = refl

step-oks : (e : Event) (d : PinDesk) → pins (step e d).answered ≡ pins d.answered ++ oks (told e d)
unfolding send_pin
step-oks asks d = sym (append-nil (pins d.answered))
step-oks stores d = ap pins (store-answered d.queue d) ∙ sym (append-nil (pins d.answered))
step-oks (sends pin) d = send_taken-oks pin d.pin_tx (record d { pin_tx = none })
step-oks (gives_up i) d = sym (append-nil (pins d.answered))

run-answers :
    (es : List Event) (d : PinDesk)
    → InOrder d
    → InOrder (run es d).1 × (pins (run es d).1.answered ≡ pins d.answered ++ oks (run es d).0)
unfolding run
run-answers [] d h = (h, sym (append-nil (pins d.answered)))
run-answers (e ∷ es) d h =
    let (order, answers) = run-answers es (step e d) (step-InOrder e d h) in
    (
      order,
      answers
          ∙ ap (λ l. l ++ oks (run es (step e d)).0) (step-oks e d)
          ∙ append_assoc (pins d.answered) (oks (told e d)) (oks (run es (step e d)).0)
          ∙ ap (pins d.answered ++◌) (sym (oks-append (told e d) (run es (step e d)).0)),
    )

-- Whatever the session asks and gives up and whatever the app sends, in any order: the requests
-- that got a PIN are different, each made after the one before it, and all were made; and what
-- they got are the PINs of which `send_pin` told the app that they were sent, each once and in
-- this order.
pub pins_once :
    (es : List Event)
    → let (results, d) = run es no_requests in
      Rising 0 d.next (numbers d.answered) × (pins d.answered ≡ oks results)
pins_once es =
    let (order, answers) = run-answers es no_requests (omega arith) in
    (Rising-start 0 _ (numbers (run es no_requests).1.answered) _ order, answers)
