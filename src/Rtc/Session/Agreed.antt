-- ===== src/Rtc/Session/Agreed.antt =====
-- A session of two peers: each sends what makes the other send its part.
use magic_share.Base.{
  ℕ, suc, ◌<◌, ◌≡◌, refl, ap, ◌∙◌, true, some, List, [], ◌∷◌, ◌++◌, map, append_assoc, ok, length,
  All, number_eq, list_eq,
}
use magic_share.Map.{HashMap}
use magic_share.Rtc.{Bytes, DataChannelMessage, binary, delimiter}
use magic_share.Rtc.Io.{Io, Text, RtcStatus, RtcSendFileResponse}
use magic_share.Rtc.Messages.{RtcPinSendingResponse, RtcFileListResponse}
use magic_share.Rtc.Transfer.{RtcSendFileHeaderRequest, send_all_files}
use magic_share.Rtc.Transfer.Wire.{
  Item, wire, beyond, beyond_pieces, verdicts, newest_first, answers, Expected,
}
use magic_share.Rtc.Transfer.Send.{Cuts, files, beyond_messages, files_on_wire}
use magic_share.Rtc.Transfer.Delivery.{received-Cuts}
use magic_share.Rtc.Session.{Crates}
use magic_share.Rtc.Session.Carried.{
  nonce_text, token_message, accepted_message, string-Carries, Carries,
}
use magic_share.Rtc.Session.Sender.{SenderConfig, send_task, keys}
use magic_share.Rtc.Session.Sender.Agree.{send_task_sends}
use magic_share.Rtc.Session.Receiver.{ReceiverConfig, receive_task, issue_tokens, sizes_of}
use magic_share.Rtc.Session.Receiver.Agree.{receive_task_receives}
use magic_share.Rtc.Session.Streams.{Compatible, nonce, from_sender, from_receiver}

module _ (c : Crates) (cs : SenderConfig c) (cr : ReceiverConfig c) (wanted : List Text)
    (h : Compatible c cs cr wanted)
    (long : (r : RtcSendFileHeaderRequest) → 1 < length (c.json.header.encode r)) where
  abbrev tokens : HashMap Text Text
  tokens = issue_tokens cr.new_token wanted

  pub session_agrees :
      (x : Item) (xs : List Item)
      → cs.sending ≡ files (x ∷ xs)
      → All (Expected tokens (sizes_of cs.files)) (x ∷ xs)
      → (list_chunks token_chunks : List Bytes) × (ys : List Item) × Cuts (x ∷ xs) ys
        × Carries (c.json.pin_sending.encode (RtcPinSendingResponse.file_list cs.files)) list_chunks
        × Carries (c.json.file_list.encode (RtcFileListResponse.tokens tokens)) token_chunks
        × ((k : ℕ) (io : Io)
            → (send_all_files c.json.header tokens
                (files (x ∷ xs))
                (record io { capacity = beyond_messages ys (suc k) })).1.outbox
              ≡ io.outbox ++ wire c.json.header [] ys)
        × ((k n m : ℕ) (more : List RtcSendFileResponse) (sender receiver : Io)
            → let sent = send_task c cs (record sender {
              inbox = from_receiver c cs cr token_chunks (x ∷ xs);
              outbox = [];
              capacity = suc (suc (beyond list_chunks (suc (beyond_messages ys (suc k)))));
              listening = true;
            }) in
              let got = receive_task c cr (record receiver {
                inbox = from_sender c cs cr list_chunks ys;
                outbox = [];
                capacity = suc (suc (beyond token_chunks (suc (beyond ys n))));
                listening = true;
                file_results = verdicts (x ∷ xs) more;
                appetite = beyond_pieces ys m;
              }) in
              (sent.0 ≡ ok tt)
              × (sent.1.outbox ≡ from_sender c cs cr list_chunks ys)
              × (got.0 ≡ ok tt)
              × (got.1.outbox ≡ from_receiver c cs cr token_chunks (x ∷ xs))
              × (got.1.offered ≡ some cs.files)
              × (got.1.received ≡ newest_first ys receiver.received)
              × (got.1.errors ≡ receiver.errors))
  session_agrees x xs sending all =
      let (ys, cuts, run) = files_on_wire c.json.header tokens (sizes_of cs.files) (x ∷ xs) all in
      let (lc, listed) =
        string-Carries (c.json.pin_sending.encode (RtcPinSendingResponse.file_list cs.files)) in
      let (tc, issued) =
        string-Carries (c.json.file_list.encode (RtcFileListResponse.tokens tokens)) in
      (
        lc,
        tc,
        ys,
        cuts,
        listed,
        issued,
        λ k io. (run k io).1,
        λ k n m more sender receiver.
            let ready = record sender {
              inbox = answers c.json.encode_response (x ∷ xs);
              outbox =
                  nonce_text c cs.local_nonce
                  ∷ token_message c cs.signing_key (nonce c cs cr)
                  ∷ (map binary lc ++ delimiter ∷ []);
              listening = true;
              statuses = sender.statuses ++ RtcStatus.connected ∷ [];
              selection = some (keys tokens);
            } in
            let sends =
              send_task_sends c cs cr.signing_key cr.local_nonce h.sender_valid h.receiver_valid
                h.sender_expects h.no_sender_pin h.waits tokens lc tc listed issued
                (beyond_messages ys (suc k)) (answers c.json.encode_response (x ∷ xs)) sender in
            let (returns, outbox) = run k ready in
            let open_channel = record receiver {
              inbox = wire c.json.header [] ys;
              outbox =
                  nonce_text c cr.local_nonce
                  ∷ accepted_message c cr.signing_key (nonce c cs cr)
                  ∷ (map binary tc ++ delimiter ∷ []);
              listening = true;
              statuses = receiver.statuses ++ RtcStatus.connected ∷ [];
              offered = some cs.files;
            } in
            let serves =
              receive_task_receives c cr cs.signing_key cs.local_nonce h.sender_valid
                h.receiver_valid h.receiver_expects h.no_receiver_pin h.takes wanted h.chosen
                cs.files lc tc listed issued (beyond ys n) (wire c.json.header [] ys)
                (record receiver {
                  file_results = verdicts (x ∷ xs) more;
                  appetite = beyond_pieces ys m;
                }) in
            let delivered =
              received-Cuts c.json.header c.json.encode_response tokens (sizes_of cs.files) long x
                xs ys cuts all n m more open_channel in
            rw (sends, sending, serves, delivered)
              (
                returns,
                outbox
                    ∙ ap
                        (λ (l : List DataChannelMessage).
                          nonce_text c cs.local_nonce
                          ∷ token_message c cs.signing_key (nonce c cs cr)
                          ∷ l)
                        (append_assoc (map binary lc) (delimiter ∷ []) (wire c.json.header [] ys)),
                refl,
                ap
                    (λ (l : List DataChannelMessage).
                      nonce_text c cr.local_nonce
                      ∷ accepted_message c cr.signing_key (nonce c cs cr)
                      ∷ l)
                    (append_assoc (map binary tc) (delimiter ∷ [])
                      (answers c.json.encode_response (x ∷ xs))),
                refl,
                refl,
                refl,
              ),
      )
