-- ===== src/Signaling/Client/Examples.antt =====
-- A client's connection at concrete messages: an answer in time, and one that comes too early.
use magic_share.Base.{ℕ, true, ◌≡◌, refl, none, List, [], ◌∷◌, text_eq}
use magic_share.Map.{get, insert}
use magic_share.Signaling.{ClientInfo, WsServerMessage, WsServerSdpMessage}
use magic_share.Signaling.Client.{
  Callbacks, Connection, Event, incoming, register, run, step, send_offer, send, on_answer, listen,
  answered, forward,
}
use magic_share.Signaling.Client.Sessions.{run_session, view, replay, calls_for}
use magic_share.Signaling.Client.Offer.{
  offer_session, then_register, offer_answered, first_answer, settled,
}

abbrev pub numbered : Callbacks
numbered = record { AnswerCallback = ℕ; returns = λ callback sdp. true }

abbrev pub bob : ClientInfo
bob = record {
  id = 2;
  alias = "Bob";
  version = "2.1";
  device_model = none;
  device_type = none;
  token = "t";
}

abbrev reply : WsServerSdpMessage
reply = record { peer = bob; session_id = "one"; sdp = "v=0" }

abbrev pub fresh : Connection numbered
fresh = record {
  tx = [];
  writing = true;
  on_answer = [];
  called = [];
  forwarded = [];
  listening = true;
  running = true;
}

abbrev early : List (Event numbered)
early = incoming (WsServerMessage.answer reply) ∷ []

abbrev late : List (Event numbered)
late = register "two" 8 ∷ incoming (WsServerMessage.answer reply) ∷ []

called_late :
    (run numbered late (offer_session numbered "one" 2 "v=0" 7 [] fresh).1).called ≡ (7, reply) ∷ []
unfolding run step offer_session then_register send_offer send on_answer listen answered get insert
    forward
called_late = refl

lost : (run numbered [] (offer_session numbered "one" 2 "v=0" 7 early fresh).1).called ≡ []
unfolding run step offer_session then_register send_offer send on_answer listen answered get insert
    forward
lost = refl

late_runs : (run numbered late fresh).running ≡ true
unfolding run step offer_session then_register send_offer send on_answer listen answered get insert
    forward
late_runs = refl

offer_runs :
    (run numbered late (offer_session numbered "one" 2 "v=0" 7 early fresh).1).running ≡ true
unfolding run step offer_session then_register send_offer send on_answer listen answered get insert
    forward
offer_runs = refl

none_waits : get fresh.on_answer "one" ≡ none
unfolding get
none_waits = refl

run_session_example :
    view numbered "two" (run numbered late fresh)
    ≡ replay numbered "two" late (view numbered "two" fresh)
run_session_example = run_session numbered "two" late fresh late_runs

offer_answered_example :
    let c' = run numbered late (offer_session numbered "one" 2 "v=0" 7 early fresh).1 in
    view numbered "one" c'
    ≡ settled numbered 7 (calls_for numbered "one" fresh.called) (first_answer numbered "one" late)
offer_answered_example =
    offer_answered numbered "one" 2 "v=0" 7 early late fresh refl none_waits (tt, tt)
      (refl, (tt, tt)) offer_runs
