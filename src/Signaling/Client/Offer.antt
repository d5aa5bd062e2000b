-- ===== src/Signaling/Client/Offer.antt =====
-- core/src/webrtc/webrtc.rs `send_offer`: the offer goes out, and then the callback for its answer
-- is registered.
use magic_share.Base.{
  String, true, false, ◌≡◌, refl, ap, sym, ◌∙◌, Option, some, none, List, [], ◌∷◌, ◌++◌, ◌==◌,
  text_eq, if◌then◌else◌, Bool-cases, Result, ok, err, All, inl, inr,
}
use magic_share.Map.{get}
use magic_share.Map.Laws.{get-insert_self}
use magic_share.Signaling.{Uuid, WsServerMessage, WsServerSdpMessage, WsClientMessage}
use magic_share.Signaling.Client.{
  Callbacks, Connection, Event, incoming, register, outgoing, stop_listening, stop_writing, run,
  on_answer, send_offer, send,
}
use magic_share.Signaling.Client.Sessions.{
  Call, Session, calls_for, call_waiting, session_listen, session_step, replay, view, run_session,
  run-running,
}

module _ (cbs : Callbacks) where
  unfoldable pub then_register :
      String
      → cbs.AnswerCallback
      → List (Event cbs)
      → Result (Unit {0}) × Connection cbs
      → Result (Unit {0}) × Connection cbs
  then_register session_id callback meanwhile (ok _, c) =
      (ok tt, on_answer cbs session_id callback (run cbs meanwhile c))
  then_register session_id callback meanwhile (err e, c) = (err e, c)

  -- `meanwhile` is what happens to the connection between the two calls.
  unfoldable pub offer_session :
      String
      → Uuid
      → String
      → cbs.AnswerCallback
      → List (Event cbs)
      → Connection cbs
      → Result (Unit {0}) × Connection cbs
  offer_session session_id target sdp callback meanwhile c =
      then_register session_id callback meanwhile (send_offer cbs session_id target sdp c)

  -- No callback is registered under the session id.
  abbrev pub IsForeign : String → Event cbs → Type 0
  IsForeign sid (register k callback) = (k == sid) ≡ false
  IsForeign sid _ = Unit

  -- The first answer with the session id among what happens.
  unfoldable pub first_answer : String → List (Event cbs) → Option WsServerSdpMessage
  first_answer sid (incoming (WsServerMessage.answer sdp) ∷ es) =
      let rest = first_answer sid es in if sdp.session_id == sid then some sdp else rest
  first_answer sid (_ ∷ es) = first_answer sid es
  first_answer sid [] = none

  -- One slot that held `callback`, after an answer came or none did.
  unfoldable pub settled :
      cbs.AnswerCallback → List (Call cbs) → Option WsServerSdpMessage → Session cbs
  settled callback calls none = (some callback, calls)
  settled callback calls (some sdp) = (none, calls ++ ((callback, sdp) ∷ []))

  empty-step :
      (sid : String) (e : Event cbs) (calls : List (Call cbs))
      → IsForeign sid e
      → session_step cbs sid e (none, calls) ≡ (none, calls)
  unfolding session_step session_listen call_waiting
  empty-step sid (incoming (WsServerMessage.answer sdp)) calls f =
      elim (Bool-cases (sdp.session_id == sid)) [ inl h ↦ rw h refl | inr h ↦ rw h refl ]
  empty-step sid (incoming m) calls f = refl
  empty-step sid (register k callback) calls f = rw f refl
  empty-step sid (outgoing m) calls f = refl
  empty-step sid stop_listening calls f = refl
  empty-step sid stop_writing calls f = refl

  replay-empty :
      (sid : String) (es : List (Event cbs)) (calls : List (Call cbs))
      → All (IsForeign sid) es
      → replay cbs sid es (none, calls) ≡ (none, calls)
  unfolding replay
  replay-empty sid [] calls fs = refl
  replay-empty sid (e ∷ es) calls (f, fs) =
      ap (replay cbs sid es) (empty-step sid e calls f) ∙ replay-empty sid es calls fs

  replay-full :
      (sid : String) (callback : cbs.AnswerCallback) (es : List (Event cbs))
      (calls : List (Call cbs))
      → All (IsForeign sid) es
      → replay cbs sid es (some callback, calls) ≡ settled callback calls (first_answer sid es)
  unfolding replay session_step session_listen call_waiting first_answer settled
  replay-full sid callback [] calls fs = refl
  replay-full sid callback (incoming (WsServerMessage.answer sdp) ∷ es) calls (f, fs) =
      elim (Bool-cases (sdp.session_id == sid)) [
        | inl h ↦ rw h (replay-empty sid es _ fs)
        | inr h ↦ rw h (replay-full sid callback es calls fs)
      ]
  replay-full sid callback (incoming m ∷ es) calls (f, fs) = replay-full sid callback es calls fs
  replay-full sid callback (register k other ∷ es) calls (f, fs) =
      rw f (replay-full sid callback es calls fs)
  replay-full sid callback (outgoing m ∷ es) calls (f, fs) = replay-full sid callback es calls fs
  replay-full sid callback (stop_listening ∷ es) calls (f, fs) =
      replay-full sid callback es calls fs
  replay-full sid callback (stop_writing ∷ es) calls (f, fs) = replay-full sid callback es calls fs

  on_answer-view :
      (sid : String) (callback : cbs.AnswerCallback) (c : Connection cbs)
      → view cbs sid (on_answer cbs sid callback c) ≡ (some callback, calls_for cbs sid c.called)
  unfolding on_answer
  on_answer-view sid callback c = rw (get-insert_self c.on_answer sid callback) refl

  on_answer-running :
      (sid : String) (callback : cbs.AnswerCallback) (c : Connection cbs)
      → (on_answer cbs sid callback c).running ≡ true
      → c.running ≡ true
  unfolding on_answer
  on_answer-running sid callback c r = r

  untouched :
      (sid : String) (es : List (Event cbs)) (c : Connection cbs)
      → get c.on_answer sid ≡ none
      → All (IsForeign sid) es
      → (run cbs es c).running ≡ true
      → view cbs sid (run cbs es c) ≡ (none, calls_for cbs sid c.called)
  untouched sid es c g fs r =
      run_session cbs sid es c r
      ∙ ap (λ w. replay cbs sid es (w, calls_for cbs sid c.called)) g
      ∙ replay-empty sid es _ fs

  registered :
      (sid : String) (callback : cbs.AnswerCallback) (meanwhile later : List (Event cbs))
      (c : Connection cbs)
      → get c.on_answer sid ≡ none
      → All (IsForeign sid) meanwhile
      → All (IsForeign sid) later
      → let c' = run cbs later (on_answer cbs sid callback (run cbs meanwhile c)) in
        c'.running ≡ true
        → view cbs sid c' ≡ settled callback (calls_for cbs sid c.called) (first_answer sid later)
  registered sid callback meanwhile later c g fm fl r =
      let still = run-running cbs later (on_answer cbs sid callback (run cbs meanwhile c)) r in
      run_session cbs sid later _ r
      ∙ ap (replay cbs sid later) (on_answer-view sid callback (run cbs meanwhile c))
      ∙ replay-full sid callback later _ fl
      ∙ ap (λ s. settled callback s.1 (first_answer sid later))
          (untouched sid meanwhile c g fm
            (on_answer-running sid callback (run cbs meanwhile c) still))

  sent : String → Uuid → String → Connection cbs → Connection cbs
  sent sid target sdp c = record c {
    tx =
        c.tx
        ++ (WsClientMessage.offer record { session_id = sid; target = target; sdp = sdp } ∷ []);
  }

  offer_session_open :
      (sid : String) (target : Uuid) (sdp : String) (callback : cbs.AnswerCallback)
      (meanwhile : List (Event cbs)) (c : Connection cbs)
      → c.writing ≡ true
      → offer_session sid target sdp callback meanwhile c
        ≡ (ok tt, on_answer cbs sid callback (run cbs meanwhile (sent sid target sdp c)))
  unfolding offer_session then_register send_offer send sent
  offer_session_open sid target sdp callback meanwhile c w = simp w

  -- An offer is sent under a session id that no callback is registered for, and nobody else
  -- registers one, while other things happen before the callback is registered (`meanwhile`) and
  -- after (`later`). As long as the listener's task runs, the callback is called once, with the
  -- first answer that comes after it was registered; if none comes after, it waits and is never
  -- called, also if the answer came before.
  pub offer_answered :
      (sid : String) (target : Uuid) (sdp : String) (callback : cbs.AnswerCallback)
      (meanwhile later : List (Event cbs)) (c : Connection cbs)
      → c.writing ≡ true
      → get c.on_answer sid ≡ none
      → All (IsForeign sid) meanwhile
      → All (IsForeign sid) later
      → let c' = run cbs later (offer_session sid target sdp callback meanwhile c).1 in
        c'.running ≡ true
        → view cbs sid c' ≡ settled callback (calls_for cbs sid c.called) (first_answer sid later)
  unfolding sent
  offer_answered sid target sdp callback meanwhile later c w g fm fl r =
      let opened = offer_session_open sid target sdp callback meanwhile c w in
      ap (λ done. view cbs sid (run cbs later done.1)) opened
      ∙ registered sid callback meanwhile later (sent sid target sdp c) g fm fl
          (sym (ap (λ done. (run cbs later done.1).running) opened) ∙ r)
