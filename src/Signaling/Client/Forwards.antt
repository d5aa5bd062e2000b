-- ===== src/Signaling/Client/Forwards.antt =====
-- signaling.rs `start_listener`: what the app gets of the server's messages.
use magic_share.Base.{
  Bool, true, false, ◌≡◌, refl, ap, sym, ◌∙◌, Option, some, none, List, [], ◌∷◌, ◌++◌, append_assoc,
  append-nil, text_eq, if◌then◌else◌, All, arith,
}
use magic_share.Signaling.{WsServerMessage, WsServerSdpMessage, WsClientMessage}
use magic_share.Signaling.Client.{
  Callbacks, Connection, Event, incoming, register, outgoing, stop_listening, stop_writing, step,
  run, listen, answered, forward, on_answer, send,
}

module _ (cbs : Callbacks) where
  -- The messages that come from the server, in order.
  unfoldable pub messages : List (Event cbs) → List WsServerMessage
  messages [] = []
  messages (incoming m ∷ es) = m ∷ messages es
  messages (_ ∷ es) = messages es

  unfoldable message_of : Event cbs → List WsServerMessage
  message_of (incoming m) = m ∷ []
  message_of _ = []

  messages-cons :
      (e : Event cbs) (es : List (Event cbs)) → messages (e ∷ es) ≡ message_of e ++ messages es
  unfolding messages message_of
  messages-cons (incoming m) es = refl
  messages-cons (register k callback) es = refl
  messages-cons (outgoing m) es = refl
  messages-cons stop_listening es = refl
  messages-cons stop_writing es = refl

  -- A message is either forwarded, or it ends the task and is not.
  data Forwarded (ms : List WsServerMessage) (c c' : Connection cbs) : Type 0 where
    whole : c'.forwarded ≡ c.forwarded ++ ms → Forwarded ms c c'
    ended : c'.forwarded ≡ c.forwarded → c'.running ≡ false → Forwarded ms c c'

  if-Forwarded :
      {ms : List WsServerMessage} {c x y : Connection cbs} (b : Bool)
      → Forwarded ms c x
      → Forwarded ms c y
      → Forwarded ms c (if b then x else y)
  if-Forwarded true hx hy = hx
  if-Forwarded false hx hy = hy

  forward-Forwarded :
      (m : WsServerMessage) (c d : Connection cbs)
      → d.forwarded ≡ c.forwarded
      → Forwarded (m ∷ []) c (forward cbs m d)
  unfolding forward
  forward-Forwarded m c d h =
      if-Forwarded d.listening (whole (ap (λ l. l ++ (m ∷ [])) h)) (ended h refl)

  answered-Forwarded :
      (sdp : WsServerSdpMessage) (w : Option cbs.AnswerCallback) (c : Connection cbs)
      → Forwarded (WsServerMessage.answer sdp ∷ []) c (answered cbs sdp w c)
  unfolding answered
  answered-Forwarded sdp none c = forward-Forwarded _ c c refl
  answered-Forwarded sdp (some callback) c =
      if-Forwarded (cbs.returns callback sdp) (forward-Forwarded _ c _ refl) (ended refl refl)

  listen-Forwarded :
      (m : WsServerMessage) (c : Connection cbs) → Forwarded (m ∷ []) c (listen cbs m c)
  unfolding listen
  listen-Forwarded (WsServerMessage.answer sdp) c = answered-Forwarded sdp _ c
  listen-Forwarded m c = forward-Forwarded m c c refl

  turn-Forwarded :
      (m : WsServerMessage) (running : Bool) (c : Connection cbs)
      → c.running ≡ running
      → Forwarded (m ∷ []) c (if running then listen cbs m c else c)
  turn-Forwarded m true c h = listen-Forwarded m c
  turn-Forwarded m false c h = ended refl h

  send-forwarded :
      (m : WsClientMessage) (c : Connection cbs) → (send cbs m c).1.forwarded ≡ c.forwarded
  unfolding send
  send-forwarded m c = ground arith

  step-Forwarded : (e : Event cbs) (c : Connection cbs) → Forwarded (message_of e) c (step cbs e c)
  unfolding step on_answer send message_of
  step-Forwarded (incoming m) c = turn-Forwarded m c.running c refl
  step-Forwarded (register k callback) c = whole (sym (append-nil c.forwarded))
  step-Forwarded (outgoing m) c = whole (send-forwarded m c ∙ sym (append-nil c.forwarded))
  step-Forwarded stop_listening c = whole (sym (append-nil c.forwarded))
  step-Forwarded stop_writing c = whole (sym (append-nil c.forwarded))

  step_stopped :
      (e : Event cbs) (c : Connection cbs)
      → c.running ≡ false
      → ((step cbs e c).forwarded ≡ c.forwarded) × ((step cbs e c).running ≡ false)
  unfolding step on_answer send
  step_stopped (incoming m) c r = ground arith
  step_stopped (register k callback) c r = (refl, r)
  step_stopped (outgoing m) c r = ground arith
  step_stopped stop_listening c r = (refl, r)
  step_stopped stop_writing c r = (refl, r)

  run_stopped :
      (es : List (Event cbs)) (c : Connection cbs)
      → c.running ≡ false
      → ((run cbs es c).forwarded ≡ c.forwarded) × ((run cbs es c).running ≡ false)
  unfolding run
  run_stopped [] c r = (refl, r)
  run_stopped (e ∷ es) c r =
      let (same, r') = step_stopped e c r in
      let (rest, r'') = run_stopped es (step cbs e c) r' in (rest ∙ same, r'')

  Missed : List WsServerMessage → Connection cbs → Connection cbs → Type 0
  Missed ms c c' =
      (missed : List WsServerMessage) × (c'.forwarded ++ missed ≡ c.forwarded ++ ms)
      × (c'.running ≡ true → missed ≡ [])

  join_runs :
      (e : Event cbs) (es : List (Event cbs)) (c : Connection cbs)
      → Forwarded (message_of e) c (step cbs e c)
      → Missed (messages es) (step cbs e c) (run cbs es (step cbs e c))
      → Missed (messages (e ∷ es)) c (run cbs es (step cbs e c))
  unfolding Missed
  join_runs e es c (whole h) (missed, p, q) = (
    missed,
    p
        ∙ ap (λ l. l ++ messages es) h
        ∙ append_assoc c.forwarded (message_of e) (messages es)
        ∙ ap (c.forwarded ++◌) (sym (messages-cons e es)),
    q,
  )
  join_runs e es c (ended h r) rest =
      let (same, r') = run_stopped es (step cbs e c) r in
      (messages (e ∷ es), ap (λ l. l ++ messages (e ∷ es)) (same ∙ h), λ t. cc)

  -- Whatever happens to a connection, the app has been given an initial part of the server's
  -- messages, in the order in which they came, and all of them if the listener's task still runs.
  pub run_forwards :
      (es : List (Event cbs)) (c : Connection cbs)
      → (missed : List WsServerMessage) × ((run cbs es c).forwarded ++ missed
          ≡ c.forwarded ++ messages es)
        × ((run cbs es c).running ≡ true → missed ≡ [])
  unfolding run messages Missed
  run_forwards [] c = ([], refl, λ r. refl)
  run_forwards (e ∷ es) c = join_runs e es c (step-Forwarded e c) (run_forwards es (step cbs e c))

  -- The app does not drop its receiver.
  abbrev pub IsHeard : Event cbs → Type 0
  IsHeard stop_listening = true ≡ false
  IsHeard _ = Unit

  Alive : Connection cbs → Type 0
  Alive c = (c.running ≡ true) × (c.listening ≡ true)

  forward-Alive : (m : WsServerMessage) (c : Connection cbs) → Alive c → Alive (forward cbs m c)
  unfolding forward Alive
  forward-Alive m c a = ground arith

  send-Alive : (m : WsClientMessage) (c : Connection cbs) → Alive c → Alive (send cbs m c).1
  unfolding send Alive
  send-Alive m c a = ground arith

  module _
      (always : (callback : cbs.AnswerCallback) (sdp : WsServerSdpMessage)
        → cbs.returns callback sdp ≡ true) where
    answered-Alive :
        (sdp : WsServerSdpMessage) (w : Option cbs.AnswerCallback) (c : Connection cbs)
        → Alive c
        → Alive (answered cbs sdp w c)
    unfolding answered Alive
    answered-Alive sdp none c a = forward-Alive _ c a
    answered-Alive sdp (some callback) c a =
        rw (always callback sdp) (forward-Alive (WsServerMessage.answer sdp) _ a)

    listen-Alive : (m : WsServerMessage) (c : Connection cbs) → Alive c → Alive (listen cbs m c)
    unfolding listen
    listen-Alive (WsServerMessage.answer sdp) c a = answered-Alive sdp _ c a
    listen-Alive m c a = forward-Alive m c a

    turn-Alive :
        (m : WsServerMessage) (running : Bool) (c : Connection cbs)
        → Alive c
        → Alive (if running then listen cbs m c else c)
    turn-Alive m true c a = listen-Alive m c a
    turn-Alive m false c a = a

    step-Alive : (e : Event cbs) (c : Connection cbs) → IsHeard e → Alive c → Alive (step cbs e c)
    unfolding step on_answer Alive
    step-Alive (incoming m) c h a = turn-Alive m c.running c a
    step-Alive (register k callback) c h a = a
    step-Alive (outgoing m) c h a = send-Alive m c a
    step-Alive stop_listening c h a = cc
    step-Alive stop_writing c h a = a

    run-Alive :
        (es : List (Event cbs)) (c : Connection cbs)
        → All IsHeard es
        → Alive c
        → Alive (run cbs es c)
    unfolding run
    run-Alive [] c hs a = a
    run-Alive (e ∷ es) c (h, hs) a = run-Alive es (step cbs e c) hs (step-Alive e c h a)

    -- If no callback panics and the app keeps its receiver, the listener's task never ends, and
    -- the app is given every message of the server, in order.
    pub listener_lives :
        (es : List (Event cbs)) (c : Connection cbs)
        → All IsHeard es
        → c.running ≡ true
        → c.listening ≡ true
        → ((run cbs es c).running ≡ true) × ((run cbs es c).forwarded ≡ c.forwarded ++ messages es)
    unfolding Alive
    listener_lives es c hs r l =
        let (running, listening) = run-Alive es c hs (r, l) in
        let (missed, p, q) = run_forwards es c in
        (
          running,
          sym (append-nil (run cbs es c).forwarded)
              ∙ ap ((run cbs es c).forwarded ++◌) (sym (q running))
              ∙ p,
        )
