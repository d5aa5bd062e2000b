-- ===== src/Bridge/Delivery.antt =====
-- A file on its whole way: from the app that sends it, through the sessions of two peers, to the
-- app that receives it. app/rust/src/api/webrtc.rs over core/src/webrtc/webrtc.rs.
mod Examples
use magic_share.Base.{
  ℕ, suc, ◌<◌, ◌≡◌, refl, ap, sym, ◌∙◌, true, some, none, List, [], ◌∷◌, ◌++◌, map, append-nil,
  Result, ok, err, length, All, concat, number_eq, list_eq,
}
use magic_share.Rtc.{Bytes, DataChannelMessage}
use magic_share.Rtc.Io.{Io, Text, RtcFile, FileDto, RtcSendFileResponse}
use magic_share.Rtc.Transfer.{RtcSendFileHeaderRequest}
use magic_share.Rtc.Transfer.Wire.{Item, beyond, beyond_pieces, verdicts, newest_first, Expected}
use magic_share.Rtc.Transfer.Send.{Cuts, files, beyond_messages}
use magic_share.Rtc.Session.{Crates}
use magic_share.Rtc.Session.Sender.{SenderConfig, send_task}
use magic_share.Rtc.Session.Receiver.{ReceiverConfig, receive_task, issue_tokens, sizes_of}
use magic_share.Rtc.Session.Streams.{Compatible, InTurn, from_sender, from_receiver}
use magic_share.Rtc.Session.Whole.{session_delivers}
use magic_share.Bridge.Receive.{
  Session, RtcFileReceiver, receive_controller, await_one, file_receiver, listen_files,
  listen_receiving, receive,
}
use magic_share.Bridge.Receive.Files.{receive_gives}

abbrev oldest_first : List RtcFile → List RtcFile → List RtcFile
oldest_first [] later = later
oldest_first (f ∷ l) later = oldest_first l (f ∷ later)

-- What the app's channels carry of a session that has ended.
abbrev pub as_session : Result (Unit {0}) × Io → Session
as_session (r, io) = record {
  statuses = io.statuses;
  offered = io.offered;
  errors = io.errors;
  received = oldest_first io.received [];
  result = r;
}

oldest-newest :
    (ys : List Item) (old later : List RtcFile)
    → oldest_first (newest_first ys old) later ≡ oldest_first old (files ys ++ later)
oldest-newest [] old later = refl
oldest-newest (y ∷ ys) old later = oldest-newest ys (y.file ∷ old) later

-- The app is handed one receiver for each file, and what `receive` gives it is the file's bytes.
abbrev pub Arrives : List RtcFile → List (Result RtcFileReceiver) → Type 0
Arrives [] [] = Unit
Arrives (f ∷ fs) (ok r ∷ rs) =
    (r.file_id ≡ f.file_id)
    × ((receive r []).0.0 ≡ ok tt)
    × (concat (receive r []).0.1 ≡ concat f.pieces)
    × Arrives fs rs
Arrives _ _ = ⊥

Cuts-Arrives :
    (xs ys : List Item)
    → Cuts xs ys
    → Arrives (files xs) (map (λ m. ok (file_receiver m)) (files ys))
Cuts-Arrives [] [] cuts = tt
Cuts-Arrives [] (y ∷ ys) cuts = elim cuts [ ]
Cuts-Arrives (x ∷ xs) [] cuts = elim cuts [ ]
Cuts-Arrives (x ∷ xs) (y ∷ ys) (cut, cuts) =
    let (bs, given, whole, batched, returns, again) =
      receive_gives (file_receiver y.file) y.file.pieces [] refl in
    (cut.same_id, returns, ap concat given ∙ whole ∙ cut.same_bytes, Cuts-Arrives xs ys cuts)

session-listed :
    (got : Result (Unit {0}) × Io) (fs : List FileDto)
    → got.1.offered ≡ some fs
    → (listen_files (receive_controller (as_session got))).0 ≡ ok fs
unfolding listen_files
session-listed got fs e =
    ap (λ o. await_one "Files already received" "Files channel closed" (some o)) e

session-Arrives :
    (got : Result (Unit {0}) × Io) (xs ys : List Item)
    → Cuts xs ys
    → got.1.received ≡ newest_first ys []
    → Arrives (files xs) (listen_receiving (receive_controller (as_session got))).0
unfolding listen_receiving
session-Arrives got xs ys cuts e =
    rw (e, oldest-newest ys [] [], append-nil (files ys)) (Cuts-Arrives xs ys cuts)

module _ (c : Crates) (cs : SenderConfig c) (cr : ReceiverConfig c) (wanted : List Text)
    (h : Compatible c cs cr wanted)
    (long : (r : RtcSendFileHeaderRequest) → 1 < length (c.json.header.encode r))
    (unlisted : c.json.pin_sending.decode [] ≡ none)
    (unchosen : c.json.file_list.decode [] ≡ none) where
  -- For two compatible ends of which neither asks for a PIN, and at least one file, put by the one
  -- app into `send_file`, listed by it and wanted by the user of the other, there is a session:
  -- streams of messages such that each task, which receives the other's stream on a channel that
  -- takes its messages, sends exactly its own, and the sender's returns. Neither waits for what the
  -- other sends only later (`InTurn`): nonce, token, file list, choice and files are each sent by
  -- the time the other's stream has come as far as the part before. The other app's controller
  -- gives it, for a receiver that had no files yet, the sender's list by `listen_files`, and by
  -- `listen_receiving` one file receiver for each file, in order and under its id, whose `receive`
  -- gives the app all bytes of the file. No message is read from the empty text, and headers are
  -- longer than a byte, as in JSON.
  pub app_to_app :
      (x : Item) (xs : List Item)
      → cs.sending ≡ files (x ∷ xs)
      → All (Expected (issue_tokens cr.new_token wanted) (sizes_of cs.files)) (x ∷ xs)
      → (list_chunks token_chunks : List Bytes) × (ys : List Item) × Cuts (x ∷ xs) ys
        × ((k n m : ℕ) (more : List RtcSendFileResponse) (sender receiver : Io)
            → receiver.received ≡ []
            → let sent = send_task c cs (record sender {
              inbox = from_receiver c cs cr token_chunks (x ∷ xs);
              outbox = [];
              capacity = suc (suc (beyond list_chunks (suc (beyond_messages ys (suc k)))));
              listening = true;
            }) in
              let got = receive_task c cr (record receiver {
                inbox = from_sender c cs cr list_chunks ys;
                outbox = [];
                capacity = suc (suc (beyond token_chunks (suc (beyond ys n))));
                listening = true;
                file_results = verdicts (x ∷ xs) more;
                appetite = beyond_pieces ys m;
              }) in
              let app = receive_controller (as_session got) in
              (sent.0 ≡ ok tt)
              × (sent.1.outbox ≡ from_sender c cs cr list_chunks ys)
              × (got.1.outbox ≡ from_receiver c cs cr token_chunks (x ∷ xs))
              × ((listen_files app).0 ≡ ok cs.files)
              × Arrives (files (x ∷ xs)) (listen_receiving app).0
              × InTurn c cs cr list_chunks token_chunks ys
                  (λ inbox.
                    (send_task c cs (record sender {
                      inbox = inbox;
                      outbox = [];
                      capacity = suc (suc (beyond list_chunks (suc (beyond_messages ys (suc k)))));
                      listening = true;
                    })).1.outbox)
                  (λ inbox.
                    (receive_task c cr (record receiver {
                      inbox = inbox;
                      outbox = [];
                      capacity = suc (suc (beyond token_chunks (suc (beyond ys n))));
                      listening = true;
                      file_results = verdicts (x ∷ xs) more;
                      appetite = beyond_pieces ys m;
                    })).1.outbox))
  app_to_app x xs sending all =
      let (lc, tc, ys, cuts, run) =
        session_delivers c cs cr wanted h long unlisted unchosen x xs sending all in
      (
        lc,
        tc,
        ys,
        cuts,
        λ k n m more sender receiver none_yet.
            let got = receive_task c cr (record receiver {
              inbox = from_sender c cs cr lc ys;
              outbox = [];
              capacity = suc (suc (beyond tc (suc (beyond ys n))));
              listening = true;
              file_results = verdicts (x ∷ xs) more;
              appetite = beyond_pieces ys m;
            }) in
            let (returns, outbox, received, answered, listed, arrived, quiet, turns) =
              run k n m more sender receiver in
            (
              returns,
              outbox,
              answered,
              session-listed got cs.files listed,
              session-Arrives got (x ∷ xs) ys cuts (arrived ∙ ap (newest_first ys) none_yet),
              turns,
            ),
      )
