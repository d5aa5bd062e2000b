-- ===== src/Rtc/Transfer/Receive.antt =====
-- The receiving loop takes in every file that the sender's header announces with its token.
use magic_share.Base.{
  list_test_iff, ℕ, ◌<◌, ◌≡◌, refl, ◌∙◌, true, false, some, none, List, [], ◌∷◌, ◌++◌, map,
  append_assoc, append-nil, number_eq, list_eq, ◌==◌, ok, err, length, leb, All, arith,
}
use magic_share.Map.{HashMap}
use magic_share.Rtc.{Bytes, DataChannelMessage, text, binary, delimiter}
use magic_share.Rtc.Io.{Io, Text, Codec, RtcFile, RtcSendFileResponse}
use magic_share.Rtc.Transfer.{
  RtcSendFileHeaderRequest, RtcFileState, FileSizes, Round, file_response, file_error, close_file,
  start_file, check_token, open_file, receive_string, receive_piece, receive_message, receive_files,
}
use magic_share.Rtc.Transfer.Wire.{
  Item, header_of, wire, beyond, beyond_pieces, verdicts, newest_first, answers, Expected,
}

abbrev state_of : Item → RtcFileState
state_of x = record { file_id = x.file.file_id; size = x.size }

module _ (header : Codec RtcSendFileHeaderRequest) (response : RtcSendFileResponse → Bytes)
    (tokens : HashMap Text Text) (sizes : FileSizes)
    (long : (h : RtcSendFileHeaderRequest) → 1 < length (header.encode h)) where
  pub receive_files-nothing :
      (io : Io) → receive_files header response tokens sizes [] none io ≡ (ok tt, io)
  unfolding receive_files
  receive_files-nothing io = refl

  leb-header : (h : RtcSendFileHeaderRequest) → leb (length (header.encode h)) 1 ≡ false
  leb-header h = ground (arith, long h)

  token_same : (t : Text) → (t == t) ≡ true
  token_same t = (list_test_iff t t).1 refl

  pieces_received :
      (cs done : List Bytes) (id : Text) (state : RtcFileState) (old : List RtcFile) (io : Io)
      (n : ℕ) (rest : List DataChannelMessage)
      → receive_files header response tokens sizes (map binary cs ++ rest) (some state) (record io {
        received = record { file_id = id; pieces = done } ∷ old;
        appetite = beyond cs n;
      })
        ≡ receive_files header response tokens sizes rest (some state) (record io {
          received = record { file_id = id; pieces = done ++ cs } ∷ old;
          appetite = n;
        })
  unfolding receive_files receive_message receive_piece
  pieces_received [] done id state old io n rest = rw (append-nil done) refl
  pieces_received (c ∷ cs) done id state old io n rest =
      pieces_received cs (done ++ c ∷ []) id state old io n rest
      ∙ rw (append_assoc done (c ∷ []) cs) refl

  open_header :
      (x : Item) (io : Io)
      → Expected tokens sizes x
      → open_file header response tokens sizes (header.encode (header_of x.file x.token)) io ≡ (
        ok (Round.go (some (state_of x))),
        record io { received = record { file_id = x.file.file_id; pieces = [] } ∷ io.received },
      )
  unfolding open_file check_token start_file
  open_header x io (e, f) =
      rw (header.decode-encode (header_of x.file x.token), e, token_same x.token, f) refl

  rest_received :
      (x : Item) (xs : List Item) (last : List DataChannelMessage) (old : List RtcFile)
      (more : List RtcSendFileResponse) (k n : ℕ) (io : Io)
      → All (Expected tokens sizes) xs
      → receive_files header response tokens sizes
          (wire header last xs)
          (some (state_of x))
          (record io {
            received = old;
            file_results = verdicts (x ∷ xs) more;
            capacity = beyond (x ∷ xs) k;
            appetite = beyond_pieces xs n;
          })
        ≡ (
          ok tt,
          record io {
            received = newest_first xs old;
            file_results = more;
            capacity = k;
            outbox = io.outbox ++ answers response (x ∷ xs);
            appetite = n;
          },
        )
  unfolding receive_files receive_message receive_string close_file
  rest_received x [] last old more k n io all = refl
  rest_received x (y ∷ ys) last old more k n io (ex, all) =
      let answer = text (response (file_response x.file.file_id (file_error (some x.verdict)))) in
      let told = record io {
        file_results = verdicts (y ∷ ys) more;
        capacity = beyond (y ∷ ys) k;
        outbox = io.outbox ++ answer ∷ [];
      } in
      rw (leb-header (header_of y.file y.token)) (
        rw (open_header y (record told { received = old; appetite = beyond_pieces (y ∷ ys) n }) ex)
          (pieces_received y.file.pieces [] y.file.file_id (state_of y) old told
              (beyond_pieces ys n) (wire header last ys)
            ∙ rest_received y ys last (y.file ∷ old) more k n
                (record io { outbox = io.outbox ++ answer ∷ [] }) all
            ∙ rw (append_assoc io.outbox (answer ∷ []) (answers response (y ∷ ys))) refl))

  -- The receiving loop, given what the wire of at least one expected file carries, as many
  -- verdicts of the user, an app that takes the pieces and a channel that takes the answers:
  -- every file is published with its pieces in order, each is answered with the user's verdict,
  -- no error is reported, and the loop ends at the delimiter, whatever comes behind it.
  pub receive_files-wire :
      (x : Item) (xs : List Item) (last : List DataChannelMessage) (more : List RtcSendFileResponse)
      (k n : ℕ) (io : Io)
      → All (Expected tokens sizes) (x ∷ xs)
      → receive_files header response tokens sizes (wire header last (x ∷ xs)) none (record io {
        file_results = verdicts (x ∷ xs) more;
        capacity = beyond (x ∷ xs) k;
        appetite = beyond_pieces (x ∷ xs) n;
      })
        ≡ (
          ok tt,
          record io {
            received = newest_first (x ∷ xs) io.received;
            file_results = more;
            capacity = k;
            outbox = io.outbox ++ answers response (x ∷ xs);
            appetite = n;
          },
        )
  unfolding receive_files receive_message receive_string
  receive_files-wire x xs last more k n io (ex, all) =
      let ready = record io {
        file_results = verdicts (x ∷ xs) more;
        capacity = beyond (x ∷ xs) k;
      } in
      rw (open_header x (record ready { appetite = beyond_pieces (x ∷ xs) n }) ex) (
        pieces_received x.file.pieces [] x.file.file_id (state_of x) io.received ready
          (beyond_pieces xs n) (wire header last xs)
        ∙ rest_received x xs last (x.file ∷ io.received) more k n io all)

  pub receive_delimiter :
      header.decode delimiter.payload ≡ none
      → (io : Io)
      → receive_files header response tokens sizes (delimiter ∷ []) none io
        ≡ (err "invalid file header", io)
  unfolding receive_files receive_message receive_string open_file
  receive_delimiter e io = rw e refl
