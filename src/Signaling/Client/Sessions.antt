-- ===== src/Signaling/Client/Sessions.antt =====
-- signaling.rs `start_listener` and `on_answer`: what one session id sees of a connection.
use magic_share.Base.{
  String, Bool, true, false, ◌≡◌, refl, ap, sym, ◌∙◌, inl, inr, Option, some, none, List, [], ◌∷◌,
  ◌++◌, append-nil, ◌==◌, text_eq, if◌then◌else◌, Bool-cases, arith,
}
use magic_share.Map.{get, remove}
use magic_share.Map.Laws.{get-insert, get-remove}
use magic_share.Signaling.{WsServerMessage, WsServerSdpMessage, WsClientMessage}
use magic_share.Signaling.Client.{
  Callbacks, Connection, Event, incoming, register, outgoing, stop_listening, stop_writing, step,
  run, listen, answered, forward, on_answer, send,
}

module _ (cbs : Callbacks) where
  abbrev pub Call : Type 0
  Call = cbs.AnswerCallback × WsServerSdpMessage

  unfoldable pub calls_for : String → List Call → List Call
  calls_for sid [] = []
  calls_for sid ((callback, sdp) ∷ calls) =
      let rest = calls_for sid calls in
      if sdp.session_id == sid then (callback, sdp) ∷ rest else rest

  -- The callback that waits, and the calls made.
  abbrev pub Session : Type 0
  Session = Option cbs.AnswerCallback × List Call

  unfoldable pub call_waiting : WsServerSdpMessage → Session → Session
  call_waiting sdp (none, calls) = (none, calls)
  call_waiting sdp (some callback, calls) = (none, calls ++ ((callback, sdp) ∷ []))

  unfoldable pub session_listen : String → WsServerMessage → Session → Session
  session_listen sid (WsServerMessage.answer sdp) s =
      if sdp.session_id == sid then call_waiting sdp s else s
  session_listen sid _ s = s

  unfoldable pub session_step : String → Event cbs → Session → Session
  session_step sid (incoming message) s = session_listen sid message s
  session_step sid (register session_id callback) s =
      if session_id == sid then (some callback, s.1) else s
  session_step sid _ s = s

  unfoldable pub replay : String → List (Event cbs) → Session → Session
  replay sid [] s = s
  replay sid (e ∷ es) s = replay sid es (session_step sid e s)

  abbrev pub view : String → Connection cbs → Session
  view sid c = (get c.on_answer sid, calls_for sid c.called)

  calls_for-append :
      (sid : String) (xs ys : List Call)
      → calls_for sid (xs ++ ys) ≡ calls_for sid xs ++ calls_for sid ys
  unfolding calls_for
  calls_for-append sid [] ys = refl
  calls_for-append sid ((callback, sdp) ∷ xs) ys = ground (arith, calls_for-append sid xs ys)

  forward-view :
      (sid : String) (m : WsServerMessage) (c : Connection cbs)
      → view sid (forward cbs m c) ≡ view sid c
  unfolding forward
  forward-view sid m c = ground arith

  at_same :
      (sid : String) (sdp : WsServerSdpMessage) (c : Connection cbs) {w : Option cbs.AnswerCallback}
      → (sdp.session_id == sid) ≡ true
      → get c.on_answer sdp.session_id ≡ w
      → get c.on_answer sid ≡ w
  at_same sid sdp c h w = sym (ap (get c.on_answer) ((text_eq.test_iff sdp.session_id sid).0 h)) ∙ w

  absent-view :
      (sid : String) (sdp : WsServerSdpMessage) (c : Connection cbs)
      → get c.on_answer sdp.session_id ≡ none
      → (if sdp.session_id == sid then call_waiting sdp (view sid c) else view sid c) ≡ view sid c
  unfolding call_waiting
  absent-view sid sdp c w = elim (Bool-cases (sdp.session_id == sid)) [
    | inl h ↦ rw (h, at_same sid sdp c h w) refl
    | inr h ↦ rw h refl
  ]

  present-view :
      (sid : String) (sdp : WsServerSdpMessage) (callback : cbs.AnswerCallback) (c : Connection cbs)
      → get c.on_answer sdp.session_id ≡ some callback
      → (if sdp.session_id == sid then call_waiting sdp (view sid c) else view sid c) ≡ (
        get (remove c.on_answer sdp.session_id) sid,
        calls_for sid (c.called ++ ((callback, sdp) ∷ [])),
      )
  unfolding call_waiting calls_for
  present-view sid sdp callback c w =
      rw
        (
          get-remove c.on_answer sdp.session_id sid,
          calls_for-append sid c.called ((callback, sdp) ∷ []),
        )
        (elim (Bool-cases (sdp.session_id == sid)) [
          | inl h ↦ rw (h, at_same sid sdp c h w) refl
          | inr h ↦ rw (h, append-nil (calls_for sid c.called)) refl
        ])

  after-view :
      (sid : String) (m : WsServerMessage) (returned : Bool) (c : Connection cbs)
      → view sid (if returned then forward cbs m c else record c { running = false }) ≡ view sid c
  after-view sid m true c = forward-view sid m c
  after-view sid m false c = refl

  answered-view :
      (sid : String) (sdp : WsServerSdpMessage) (w : Option cbs.AnswerCallback) (c : Connection cbs)
      → get c.on_answer sdp.session_id ≡ w
      → view sid (answered cbs sdp w c)
        ≡ (if sdp.session_id == sid then call_waiting sdp (view sid c) else view sid c)
  unfolding answered call_waiting calls_for
  answered-view sid sdp none c w =
      forward-view sid (WsServerMessage.answer sdp) c ∙ sym (absent-view sid sdp c w)
  answered-view sid sdp (some callback) c w =
      after-view sid (WsServerMessage.answer sdp) (cbs.returns callback sdp) _
      ∙ sym (present-view sid sdp callback c w)

  listen-view :
      (sid : String) (m : WsServerMessage) (c : Connection cbs)
      → view sid (listen cbs m c) ≡ session_listen sid m (view sid c)
  unfolding listen session_listen
  listen-view sid (WsServerMessage.answer sdp) c = answered-view sid sdp _ c refl
  listen-view sid (WsServerMessage.hello client peers) c = forward-view sid _ c
  listen-view sid (WsServerMessage.join peer) c = forward-view sid _ c
  listen-view sid (WsServerMessage.update peer) c = forward-view sid _ c
  listen-view sid (WsServerMessage.left peer) c = forward-view sid _ c
  listen-view sid (WsServerMessage.offer sdp) c = forward-view sid _ c
  listen-view sid (WsServerMessage.error code) c = forward-view sid _ c

  send-view :
      (sid : String) (m : WsClientMessage) (c : Connection cbs)
      → view sid (send cbs m c).1 ≡ view sid c
  unfolding send
  send-view sid m c = ground arith

  turn-view :
      (sid : String) (m : WsServerMessage) (running : Bool) (c : Connection cbs)
      → c.running ≡ running
      → (if running then listen cbs m c else c).running ≡ true
      → view sid (if running then listen cbs m c else c) ≡ session_listen sid m (view sid c)
  turn-view sid m true c h r = listen-view sid m c
  turn-view sid m false c h r = cc

  register-view :
      (sid k : String) (callback : cbs.AnswerCallback) (c : Connection cbs)
      → view sid (on_answer cbs k callback c) ≡ session_step sid (register k callback) (view sid c)
  unfolding on_answer session_step
  register-view sid k callback c =
      rw (get-insert c.on_answer k sid callback)
        (elim (Bool-cases (k == sid)) [ inl h ↦ rw h refl | inr h ↦ rw h refl ])

  step-view :
      (sid : String) (e : Event cbs) (c : Connection cbs)
      → (step cbs e c).running ≡ true
      → view sid (step cbs e c) ≡ session_step sid e (view sid c)
  unfolding step session_step
  step-view sid (incoming m) c r = turn-view sid m c.running c refl r
  step-view sid (register k callback) c r = register-view sid k callback c
  step-view sid (outgoing m) c r = send-view sid m c
  step-view sid stop_listening c r = refl
  step-view sid stop_writing c r = refl

  -- A task that has ended does not start again.
  pub step-running :
      (e : Event cbs) (c : Connection cbs) → (step cbs e c).running ≡ true → c.running ≡ true
  unfolding step on_answer send
  step-running (incoming m) c r = ground arith
  step-running (register k callback) c r = r
  step-running (outgoing m) c r = ground arith
  step-running stop_listening c r = r
  step-running stop_writing c r = r

  pub run-running :
      (es : List (Event cbs)) (c : Connection cbs)
      → (run cbs es c).running ≡ true
      → c.running ≡ true
  unfolding run
  run-running [] c r = r
  run-running (e ∷ es) c r = step-running e c (run-running es (step cbs e c) r)

  -- Whatever happens to a connection, as long as its listener's task runs, what happens under one
  -- session id is what a single slot does: registering fills it or replaces what it holds, an
  -- answer with this id empties it and calls what it held with that answer, and nothing else
  -- touches it.
  pub run_session :
      (sid : String) (es : List (Event cbs)) (c : Connection cbs)
      → (run cbs es c).running ≡ true
      → view sid (run cbs es c) ≡ replay sid es (view sid c)
  unfolding run replay
  run_session sid [] c r = refl
  run_session sid (e ∷ es) c r =
      run_session sid es (step cbs e c) r
      ∙ ap (replay sid es) (step-view sid e c (run-running es (step cbs e c) r))
