-- ===== src/Rtc/Session/Whole.antt =====
-- A whole session: what the one app sends, the other receives.
use magic_share.Base.{
  ℕ, suc, ◌<◌, ◌≡◌, ap, ◌∙◌, true, some, none, List, [], ◌∷◌, ◌++◌, map, append_assoc, ok, length,
  All, Result, number_eq, list_eq,
}
use magic_share.Map.{HashMap}
use magic_share.Rtc.{Bytes, DataChannelMessage, binary, delimiter}
use magic_share.Rtc.Io.{Io, Text, RtcStatus, RtcSendFileResponse}
use magic_share.Rtc.Messages.{RtcPinSendingResponse, RtcFileListResponse}
use magic_share.Rtc.Transfer.{RtcSendFileHeaderRequest, send_all_files}
use magic_share.Rtc.Transfer.Receive.{receive_files-nothing}
use magic_share.Rtc.Transfer.Wire.{
  Item, wire, beyond, beyond_pieces, verdicts, newest_first, Expected,
}
use magic_share.Rtc.Transfer.Send.{Cuts, files, beyond_messages}
use magic_share.Rtc.Session.{Crates}
use magic_share.Rtc.Session.Carried.{nonce_text, token_message, Carries}
use magic_share.Rtc.Session.Sender.{SenderConfig, send_task, keys}
use magic_share.Rtc.Session.Sender.Turns.{send_task-nonce, send_task-token, send_task-list}
use magic_share.Rtc.Session.Receiver.Turns.{receive_task-nonce, receive_task-token}
use magic_share.Rtc.Session.Sender.Agree.{send_task_sends}
use magic_share.Rtc.Session.Receiver.{ReceiverConfig, receive_task, issue_tokens, sizes_of}
use magic_share.Rtc.Session.Receiver.Agree.{receive_task_receives}
use magic_share.Rtc.Session.Streams.{Compatible, nonce, from_sender, from_receiver, InTurn}
use magic_share.Rtc.Session.Agreed.{session_agrees}

module _ (c : Crates) (cs : SenderConfig c) (cr : ReceiverConfig c) (wanted : List Text)
    (h : Compatible c cs cr wanted)
    (long : (r : RtcSendFileHeaderRequest) → 1 < length (c.json.header.encode r))
    (unlisted : c.json.pin_sending.decode [] ≡ none)
    (unchosen : c.json.file_list.decode [] ≡ none) where
  abbrev tokens : HashMap Text Text
  tokens = issue_tokens cr.new_token wanted

  session-InTurn :
      (x : Item) (xs : List Item)
      → cs.sending ≡ files (x ∷ xs)
      → (list_chunks token_chunks : List Bytes) (ys : List Item)
      → Carries (c.json.pin_sending.encode (RtcPinSendingResponse.file_list cs.files)) list_chunks
      → Carries (c.json.file_list.encode (RtcFileListResponse.tokens tokens)) token_chunks
      → ((k : ℕ) (io : Io)
          → (send_all_files c.json.header tokens
              (files (x ∷ xs))
              (record io { capacity = beyond_messages ys (suc k) })).1.outbox
            ≡ io.outbox ++ wire c.json.header [] ys)
      → (k n m : ℕ) (more : List RtcSendFileResponse) (sender receiver : Io)
      → InTurn c cs cr list_chunks token_chunks ys
          (λ inbox.
            (send_task c cs (record sender {
              inbox = inbox;
              outbox = [];
              capacity = suc (suc (beyond list_chunks (suc (beyond_messages ys (suc k)))));
              listening = true;
            })).1.outbox)
          (λ inbox.
            (receive_task c cr (record receiver {
              inbox = inbox;
              outbox = [];
              capacity = suc (suc (beyond token_chunks (suc (beyond ys n))));
              listening = true;
              file_results = verdicts (x ∷ xs) more;
              appetite = beyond_pieces ys m;
            })).1.outbox)
  session-InTurn x xs sending lc tc ys listed issued wired k n m more sender receiver =
      let ready = record receiver {
        file_results = verdicts (x ∷ xs) more;
        appetite = beyond_pieces ys m;
      } in
      record {
        opens =
            send_task-nonce c cs cr.signing_key cr.local_nonce h.sender_valid h.receiver_valid
              h.sender_expects _ sender;
        greets =
            receive_task-nonce c cr cs.signing_key cs.local_nonce h.sender_valid h.receiver_valid
              h.receiver_expects h.no_receiver_pin _ ready;
        proves =
            send_task-token c cs cr.signing_key cr.local_nonce h.sender_valid h.receiver_valid
              h.sender_expects _ sender;
        accepts =
            receive_task-token c cr cs.signing_key cs.local_nonce h.sender_valid h.receiver_valid
              h.receiver_expects h.no_receiver_pin _ ready unlisted;
        lists =
            send_task-list c cs cr.signing_key cr.local_nonce h.sender_valid h.receiver_valid
              h.sender_expects lc h.no_sender_pin unchosen listed (beyond_messages ys (suc k))
              sender;
        chooses =
            ap (λ (p : Result (Unit {0}) × Io). p.1.outbox)
              (receive_task_receives c cr cs.signing_key cs.local_nonce h.sender_valid
                  h.receiver_valid h.receiver_expects h.no_receiver_pin h.takes wanted h.chosen
                  cs.files lc tc listed issued (beyond ys n) [] ready
                ∙ receive_files-nothing c.json.header c.json.encode_response tokens
                    (sizes_of cs.files) long _);
        sends =
            ap (λ (p : Result (Unit {0}) × Io). p.1.outbox)
              (send_task_sends c cs cr.signing_key cr.local_nonce h.sender_valid h.receiver_valid
                h.sender_expects h.no_sender_pin h.waits tokens lc tc listed issued
                (beyond_messages ys (suc k)) [] sender)
            ∙ rw sending (
                wired k (record sender {
                  inbox = [];
                  outbox =
                      nonce_text c cs.local_nonce
                      ∷ token_message c cs.signing_key (nonce c cs cr)
                      ∷ (map binary lc ++ delimiter ∷ []);
                  listening = true;
                  statuses = sender.statuses ++ RtcStatus.connected ∷ [];
                  selection = some (keys tokens);
                }))
            ∙ ap
                (λ (l : List DataChannelMessage).
                  nonce_text c cs.local_nonce ∷ token_message c cs.signing_key (nonce c cs cr) ∷ l)
                (append_assoc (map binary lc) (delimiter ∷ []) (wire c.json.header [] ys));
      }

  -- For two compatible ends of which neither asks for a PIN, and at least one file, sent by the one
  -- app, listed by it and wanted by the user of the other, there is a session: streams of messages
  -- such that each task, which receives the other's stream on a channel that takes its messages,
  -- sends exactly its own and returns. Neither waits for what the other sends only later: nonce,
  -- token, file list, choice and files are each sent by the time the other's stream has come as far
  -- as the part before (`InTurn`). The receiving app was offered the sender's file list, and is
  -- given exactly the files sent, whole and in order. No message is read from the empty text, and
  -- headers are longer than a byte, as in JSON.
  pub session_delivers :
      (x : Item) (xs : List Item)
      → cs.sending ≡ files (x ∷ xs)
      → All (Expected tokens (sizes_of cs.files)) (x ∷ xs)
      → (list_chunks token_chunks : List Bytes) × (ys : List Item) × Cuts (x ∷ xs) ys
        × ((k n m : ℕ) (more : List RtcSendFileResponse) (sender receiver : Io)
            → let sent = send_task c cs (record sender {
              inbox = from_receiver c cs cr token_chunks (x ∷ xs);
              outbox = [];
              capacity = suc (suc (beyond list_chunks (suc (beyond_messages ys (suc k)))));
              listening = true;
            }) in
              let got = receive_task c cr (record receiver {
                inbox = from_sender c cs cr list_chunks ys;
                outbox = [];
                capacity = suc (suc (beyond token_chunks (suc (beyond ys n))));
                listening = true;
                file_results = verdicts (x ∷ xs) more;
                appetite = beyond_pieces ys m;
              }) in
              (sent.0 ≡ ok tt)
              × (sent.1.outbox ≡ from_sender c cs cr list_chunks ys)
              × (got.0 ≡ ok tt)
              × (got.1.outbox ≡ from_receiver c cs cr token_chunks (x ∷ xs))
              × (got.1.offered ≡ some cs.files)
              × (got.1.received ≡ newest_first ys receiver.received)
              × (got.1.errors ≡ receiver.errors)
              × InTurn c cs cr list_chunks token_chunks ys
                  (λ inbox.
                    (send_task c cs (record sender {
                      inbox = inbox;
                      outbox = [];
                      capacity = suc (suc (beyond list_chunks (suc (beyond_messages ys (suc k)))));
                      listening = true;
                    })).1.outbox)
                  (λ inbox.
                    (receive_task c cr (record receiver {
                      inbox = inbox;
                      outbox = [];
                      capacity = suc (suc (beyond token_chunks (suc (beyond ys n))));
                      listening = true;
                      file_results = verdicts (x ∷ xs) more;
                      appetite = beyond_pieces ys m;
                    })).1.outbox))
  session_delivers x xs sending all =
      let (lc, tc, ys, cuts, listed, issued, wired, agree) =
        session_agrees c cs cr wanted h long x xs sending all in
      (
        lc,
        tc,
        ys,
        cuts,
        λ k n m more sender receiver.
            let (s0, s1, r0, r1, o, f, e) = agree k n m more sender receiver in
            (
              s0,
              s1,
              r0,
              r1,
              o,
              f,
              e,
              session-InTurn x xs sending lc tc ys listed issued wired k n m more sender receiver,
            ),
      )
