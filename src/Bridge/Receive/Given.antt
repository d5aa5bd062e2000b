-- ===== src/Bridge/Receive/Given.antt =====
-- What the app is given by a receive controller, however often it asks.
use magic_share.Base.{
  ◌≡◌, refl, ap, ◌∙◌, String, Option, none, some, List, [], ◌∷◌, ◌++◌, append-nil, map, Result, ok,
  err, arith, if◌then◌else◌, Bool-cases, inl, inr,
}
use magic_share.Rtc.Io.{Text}
use magic_share.Crypto.Token.{VerifyingTokenKey}
use magic_share.Bridge.Keys.{ExpectingPublicKey, parse_expected, with_keys-ok}
use magic_share.Bridge.Receive.Calls.{
  App, told_nothing, Call, statuses, files, errors, receiving, declines, stops, selects, confirms,
  call, run,
}
use magic_share.Bridge.Receive.Asked.{
  asked, is_statuses, is_files, is_errors, is_receiving, first_decision, run-Slots, settled,
  decided_first,
}
use magic_share.Bridge.Receive.{
  ReceiveController, Session, reported, receive_controller, accept_offer, drain, await_one,
  listen_status, listen_files, decide, listen_error, listen_receiving, file_receiver,
  send_file_status,
}

-- What came without an error.
abbrev pub given {ℓ} : {A : Type ℓ} → List (Result A) → List A
given [] = []
given (ok a ∷ l) = a ∷ given l
given (err e ∷ l) = given l

-- What a slot still holds.
abbrev pub left {ℓ κ} : {A : Type ℓ} {B : Type κ} → (A → B) → Option (List A) → List B
left show none = []
left show (some l) = map show l

abbrev pub left_one {ℓ} : {A : Type ℓ} → Option (Option A) → List A
left_one (some (some a)) = a ∷ []
left_one _ = []

abbrev pub taken {ℓ κ} : {A : Type ℓ} {B : Type κ} → List (A × Result B) → List A
taken [] = []
taken ((a, ok u) ∷ l) = a ∷ taken l
taken ((a, err e) ∷ l) = taken l

given-append {ℓ} : {A : Type ℓ} (a b : List (Result A)) → given (a ++ b) ≡ given a ++ given b
given-append [] b = refl
given-append (ok x ∷ a) b = ap (◌∷◌ x) (given-append a b)
given-append (err e ∷ a) b = given-append a b

taken-append {ℓ κ} :
    {A : Type ℓ} {B : Type κ} (a b : List (A × Result B)) → taken (a ++ b) ≡ taken a ++ taken b
taken-append [] b = refl
taken-append ((x, ok u) ∷ a) b = ap (◌∷◌ x) (taken-append a b)
taken-append ((x, err e) ∷ a) b = taken-append a b

given-ok {ℓ κ} :
    {A : Type ℓ} {B : Type κ} (show : A → B) (l : List A)
    → given (map (λ m. ok (show m)) l) ≡ map show l
given-ok show [] = refl
given-ok show (x ∷ l) = ap (◌∷◌ (show x)) (given-ok show l)

-- A drained stream was given.
given-drain {ℓ κ} :
    {A : Type ℓ} {B : Type κ} (old : List (Result B)) (e : String) (show : A → B)
    (o : Option (List A))
    → given (old ++ drain e show o) ++ [] ≡ given old ++ left show o
given-drain old e show none = append-nil (given (old ++ err e ∷ [])) ∙ given-append old (err e ∷ [])
given-drain old e show (some l) =
    append-nil (given (old ++ map (λ m. ok (show m)) l))
    ∙ given-append old (map (λ m. ok (show m)) l)
    ∙ ap (given old ++◌) (given-ok show l)

given-await {ℓ} :
    {A : Type ℓ} (old : List (Result A)) (e f : String) (o : Option (Option A))
    → given (old ++ await_one e f o ∷ []) ++ [] ≡ given old ++ left_one o
given-await old e f none = append-nil (given (old ++ err e ∷ [])) ∙ given-append old (err e ∷ [])
given-await old e f (some none) =
    append-nil (given (old ++ err f ∷ [])) ∙ given-append old (err f ∷ [])
given-await old e f (some (some a)) =
    append-nil (given (old ++ ok a ∷ [])) ∙ given-append old (ok a ∷ [])

map-id {ℓ} : {A : Type ℓ} (l : List A) → map (λ x. x) l ≡ l
map-id [] = refl
map-id (x ∷ l) = ap (◌∷◌ x) (map-id l)

abbrev pub Conserved : ReceiveController × App → ReceiveController × App → Type 0
Conserved (c, a) (d, b) =
    (given b.statuses ++ left (λ s. s) d.status_rx ≡ given a.statuses ++ left (λ s. s) c.status_rx)
    × (given b.offered ++ left_one d.files_rx ≡ given a.offered ++ left_one c.files_rx)
    × (given b.errors ++ left (λ s. s) d.error_rx ≡ given a.errors ++ left (λ s. s) c.error_rx)
    × (given b.receivers ++ left file_receiver d.receiving_rx
        ≡ given a.receivers ++ left file_receiver c.receiving_rx)

call-Conserved : (k : Call) (w : ReceiveController × App) → Conserved w (call k w)
unfolding listen_status listen_files listen_error listen_receiving decide send_file_status
call-Conserved statuses (c, a) = (
  given-drain a.statuses "Status stream already listened to" (λ s. s) c.status_rx,
  refl,
  refl,
  refl,
)
call-Conserved files (c, a) = (
  refl,
  given-await a.offered "Files already received" "Files channel closed" c.files_rx,
  refl,
  refl,
)
call-Conserved errors (c, a) =
    (refl, refl, given-drain a.errors "Error stream already listened to" (λ s. s) c.error_rx, refl)
call-Conserved receiving (c, a) = (
  refl,
  refl,
  refl,
  given-drain a.receivers "Receiving stream already listened to" file_receiver c.receiving_rx,
)
call-Conserved declines (c, a) = ground arith
call-Conserved stops (c, a) = (refl, refl, refl, refl)
call-Conserved (selects l) (c, a) = ground arith
call-Conserved (confirms status) (c, a) = ground arith

pub run-Conserved : (ks : List Call) (w : ReceiveController × App) → Conserved w (run ks w)
unfolding run
run-Conserved [] w = (refl, refl, refl, refl)
run-Conserved (k ∷ ks) w =
    let (s, f, e, r) = call-Conserved k w in
    let (s', f', e', r') = run-Conserved ks (call k w) in (s' ∙ s, f' ∙ f, e' ∙ e, r' ∙ r)

-- The session was sent what the app was told was sent.
abbrev Decided : ReceiveController × App → Type 0
Decided (c, a) = c.selected ≡ taken a.decided

decide-Decided :
    (s : Option (List Text)) (c : ReceiveController) (a : App)
    → Decided (c, a)
    → let (r, c') = decide s c in Decided (c', record a { decided = a.decided ++ (s, r) ∷ [] })
unfolding decide
decide-Decided s c a h = elim (Bool-cases c.selected_tx) [
  | inl t ↦ elim (Bool-cases c.waits) [
    | inl w ↦ rw (t, w, taken-append) (ap (λ l. l ++ s ∷ []) h)
    | inr w ↦ rw (t, w, taken-append, append-nil) h
  ]
  | inr t ↦ rw (t, taken-append, append-nil) h
]

call-Decided : (k : Call) (w : ReceiveController × App) → Decided w → Decided (call k w)
unfolding listen_status listen_files listen_error listen_receiving send_file_status
call-Decided statuses (c, a) h = h
call-Decided files (c, a) h = h
call-Decided errors (c, a) h = h
call-Decided receiving (c, a) h = h
call-Decided declines (c, a) h = decide-Decided none c a h
call-Decided stops (c, a) h = h
call-Decided (selects l) (c, a) h = decide-Decided (some l) c a h
call-Decided (confirms status) (c, a) h = ground arith

pub run-Decided : (ks : List Call) (w : ReceiveController × App) → Decided w → Decided (run ks w)
unfolding run
run-Decided [] w h = h
run-Decided (k ∷ ks) w h = run-Decided ks (call k w) (call-Decided k w h)

-- What an app is given of a session by its calls.
abbrev pub Given : Session → List Call → ReceiveController × App → Type 0
Given s ks (c, a) =
    (given a.statuses ≡ (if asked is_statuses ks then reported s else []))
    × (given a.offered ≡ (if asked is_files ks then left_one (some s.offered) else []))
    × (given a.errors ≡ (if asked is_errors ks then s.errors else []))
    × (given a.receivers ≡ (if asked is_receiving ks then map file_receiver s.received else []))
    × (c.selected ≡ first_decision ks)
    × (c.selected ≡ taken a.decided)

controller-Given :
    (s : Session) (ks : List Call) {c : ReceiveController}
    → receive_controller s ≡ c
    → Given s ks (run ks (c, told_nothing))
controller-Given s ks e =
    let start : ReceiveController × App = (receive_controller s, told_nothing) in
    let (shown, listed, failed, opened) = run-Conserved ks start in
    let (slot_s, slot_f, slot_e, slot_r) = run-Slots ks start in
    rw (← e) (
      settled (asked is_statuses ks) (left (λ x. x)) _ _ _ refl shown slot_s
          ∙ ap (λ l. if asked is_statuses ks then l else []) (map-id (reported s)),
      settled (asked is_files ks) left_one _ _ _ refl listed slot_f,
      settled (asked is_errors ks) (left (λ x. x)) _ _ _ refl failed slot_e
          ∙ ap (λ l. if asked is_errors ks then l else []) (map-id s.errors),
      settled (asked is_receiving ks) (left file_receiver) _ _ _ refl opened slot_r,
      decided_first ks start refl refl,
      run-Decided ks start refl,
    )

-- `accept_offer` returns a controller only if it has read both keys, and starts a session with
-- them. Whatever the app then calls, how often and in which order, and whether or not the session
-- waits for its selection: if the app asks for the statuses, then it is given every status that
-- the session reports, last the error of one that fails, once and in order, and otherwise none.
-- The same holds of the file list, of the errors and of the received files. The session gets the
-- first decision that the app makes before the session stops to wait for it, and no other; and it
-- gets what the app was told was sent.
pub app-Given :
    {SigningKey : Type 0} (parse_private_key : Text → Result SigningKey)
    (parse : Text → Text → Result VerifyingTokenKey)
    (session : SigningKey → Option VerifyingTokenKey → Session) (private_key : Text)
    (expecting : Option ExpectingPublicKey) (c : ReceiveController) (ks : List Call)
    → accept_offer parse_private_key parse session private_key expecting ≡ ok c
    → (key : SigningKey) × (expected : Option VerifyingTokenKey) × (parse_private_key private_key
        ≡ ok key)
      × (parse_expected parse expecting ≡ ok expected)
      × Given (session key expected) ks (run ks (c, told_nothing))
app-Given parse_private_key parse session private_key expecting c ks h =
    let (key, expected, p, q, e) =
      with_keys-ok parse_private_key parse private_key expecting
        (λ key expected. receive_controller (session key expected)) h in
    (key, expected, p, q, controller-Given (session key expected) ks e)
