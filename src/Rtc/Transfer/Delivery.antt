-- ===== src/Rtc/Transfer/Delivery.antt =====
-- From one peer's app to the other's: what is sent is what is received.
use magic_share.Base.{
  number_eq, list_eq, ℕ, suc, ◌<◌, ◌≡◌, none, List, [], ◌∷◌, ◌++◌, ok, err, length, All,
}
use magic_share.Rtc.{Bytes, delimiter}
use magic_share.Map.{HashMap}
use magic_share.Rtc.Io.{Io, Text, Codec, RtcSendFileResponse}
use magic_share.Rtc.Transfer.{RtcSendFileHeaderRequest, FileSizes, send_all_files, receive_files}
use magic_share.Rtc.Transfer.Wire.{
  Item, wire, beyond, beyond_pieces, verdicts, newest_first, answers, Expected,
}
use magic_share.Rtc.Transfer.Receive.{receive_files-wire, receive_delimiter}
use magic_share.Rtc.Transfer.Send.{
  Cuts, files, beyond_messages, files_on_wire, send_nothing, Cuts-Expected, Cuts-verdicts,
  Cuts-answers,
}

module _ (header : Codec RtcSendFileHeaderRequest) (response : RtcSendFileResponse → Bytes)
    (tokens : HashMap Text Text) (sizes : FileSizes)
    (long : (h : RtcSendFileHeaderRequest) → 1 < length (header.encode h)) where
  pub received-Cuts :
      (x : Item) (xs ys : List Item)
      → Cuts (x ∷ xs) ys
      → All (Expected tokens sizes) (x ∷ xs)
      → (l n : ℕ) (more : List RtcSendFileResponse) (receiver : Io)
      → receive_files header response tokens sizes (wire header [] ys) none (record receiver {
        file_results = verdicts (x ∷ xs) more;
        capacity = beyond ys l;
        appetite = beyond_pieces ys n;
      })
        ≡ (
          ok tt,
          record receiver {
            received = newest_first ys receiver.received;
            file_results = more;
            capacity = l;
            outbox = receiver.outbox ++ answers response (x ∷ xs);
            appetite = n;
          },
        )
  received-Cuts x xs [] cuts all l n more receiver = elim cuts [ ]
  received-Cuts x xs (y ∷ ys) cuts all l n more receiver =
      rw (Cuts-verdicts (x ∷ xs) (y ∷ ys) more cuts, Cuts-answers response (x ∷ xs) (y ∷ ys) cuts)
        (receive_files-wire header response tokens sizes long y ys [] more l n receiver
          (Cuts-Expected tokens sizes (x ∷ xs) (y ∷ ys) cuts all))

  -- For at least one file that the receiver expects, with tokens that both peers hold, there is a
  -- cutting of each file's bytes into chunks, all full but the last, such that on a channel that
  -- takes the messages the sending task returns; and the receiving loop, run on what was sent,
  -- with one verdict of the user for each file, an app that takes the pieces and a channel that
  -- takes the answers, returns with exactly these files published, their bytes whole and in order,
  -- one answer with the user's verdict for each, and no error reported. Encoded headers are
  -- longer than one byte, as JSON objects are.
  pub files_delivered :
      (x : Item) (xs : List Item)
      → All (Expected tokens sizes) (x ∷ xs)
      → (ys : List Item) × Cuts (x ∷ xs) ys
        × ((k l n : ℕ) (more : List RtcSendFileResponse) (sender receiver : Io)
            → let sent =
                send_all_files header tokens
                  (files (x ∷ xs))
                  (record sender { outbox = []; capacity = beyond_messages ys (suc k) }) in
              (sent.0 ≡ ok tt)
              × (receive_files header response tokens sizes sent.1.outbox none (record receiver {
                file_results = verdicts (x ∷ xs) more;
                capacity = beyond ys l;
                appetite = beyond_pieces ys n;
              })
                  ≡ (
                    ok tt,
                    record receiver {
                      received = newest_first ys receiver.received;
                      file_results = more;
                      capacity = l;
                      outbox = receiver.outbox ++ answers response (x ∷ xs);
                      appetite = n;
                    },
                  )))
  files_delivered x xs all =
      let (ys, cuts, run) = files_on_wire header tokens sizes (x ∷ xs) all in
      (
        ys,
        cuts,
        λ k l n more sender receiver. (
          (run k (record sender { outbox = [] })).0,
          rw (run k (record sender { outbox = [] })).1
              (received-Cuts x xs ys cuts all l n more receiver),
        ),
      )

  -- Where the delimiter does not decode to a header, which it does not as JSON, a session in which
  -- no file was accepted sends just the delimiter, and this makes the receiving loop fail at once,
  -- with nothing changed.
  pub no_files_fail :
      header.decode delimiter.payload ≡ none
      → (k : ℕ) (sender receiver : Io)
      → let sent =
          send_all_files header tokens [] (record sender { outbox = []; capacity = suc k }) in
        (sent.1.outbox ≡ delimiter ∷ [])
        × (receive_files header response tokens sizes sent.1.outbox none receiver
            ≡ (err "invalid file header", receiver))
  no_files_fail e k sender receiver =
      let sent = (send_nothing header tokens k sender) in
      (sent, rw sent (receive_delimiter header response tokens sizes long e receiver))
