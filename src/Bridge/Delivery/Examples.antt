-- ===== src/Bridge/Delivery/Examples.antt =====
-- One photo on its way between two apps.
use magic_share.Base.{ℕ, ◌≡◌, refl, suc, true, List, [], ◌∷◌, codes, ok, number_eq, list_eq}
use magic_share.Rtc.{Bytes}
use magic_share.Rtc.Io.{Io, RtcSendFileResponse}
use magic_share.Rtc.Transfer.Wire.{Item, beyond, beyond_pieces, verdicts}
use magic_share.Rtc.Transfer.Send.{Cuts, beyond_messages}
use magic_share.Rtc.Session.Sender.{send_task}
use magic_share.Rtc.Session.Receiver.{receive_task}
use magic_share.Rtc.Session.Streams.{InTurn, from_sender, from_receiver}
use magic_share.Rtc.Session.ToyJson.{toy, header_long}
use magic_share.Rtc.Session.Examples.{photo, one, sender, receiver, ready, one-Expected}
use magic_share.Bridge.Receive.{receive_controller, listen_files, listen_receiving}
use magic_share.Bridge.Delivery.{as_session, Arrives, app_to_app}

app_to_app_example :
    (list_chunks token_chunks : List Bytes) × (ys : List Item) × Cuts (one ∷ []) ys
    × ((k n m : ℕ) (more : List RtcSendFileResponse) (mine theirs : Io)
        → theirs.received ≡ []
        → let sent = send_task toy sender (record mine {
          inbox = from_receiver toy sender receiver token_chunks (one ∷ []);
          outbox = [];
          capacity = suc (suc (beyond list_chunks (suc (beyond_messages ys (suc k)))));
          listening = true;
        }) in
          let got = receive_task toy receiver (record theirs {
            inbox = from_sender toy sender receiver list_chunks ys;
            outbox = [];
            capacity = suc (suc (beyond token_chunks (suc (beyond ys n))));
            listening = true;
            file_results = verdicts (one ∷ []) more;
            appetite = beyond_pieces ys m;
          }) in
          let app = receive_controller (as_session got) in
          (sent.0 ≡ ok tt)
          × (sent.1.outbox ≡ from_sender toy sender receiver list_chunks ys)
          × (got.1.outbox ≡ from_receiver toy sender receiver token_chunks (one ∷ []))
          × ((listen_files app).0 ≡ ok (photo ∷ []))
          × Arrives (one.file ∷ []) (listen_receiving app).0
          × InTurn toy sender receiver list_chunks token_chunks ys
              (λ inbox.
                (send_task toy sender (record mine {
                  inbox = inbox;
                  outbox = [];
                  capacity = suc (suc (beyond list_chunks (suc (beyond_messages ys (suc k)))));
                  listening = true;
                })).1.outbox)
              (λ inbox.
                (receive_task toy receiver (record theirs {
                  inbox = inbox;
                  outbox = [];
                  capacity = suc (suc (beyond token_chunks (suc (beyond ys n))));
                  listening = true;
                  file_results = verdicts (one ∷ []) more;
                  appetite = beyond_pieces ys m;
                })).1.outbox))
app_to_app_example =
    app_to_app toy sender receiver (codes "a" ∷ []) ready header_long refl refl one [] refl
      (one-Expected, tt)
