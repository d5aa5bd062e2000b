-- ===== src/Rtc/Transfer/Send.antt =====
-- The sending task puts every file on the wire, and the other side receives what was sent.
use magic_share.Base.{
  ℕ, suc, ◌≡◌, refl, ap, ◌∙◌, List, [], ◌∷◌, ◌++◌, map, append_assoc, append-nil, number_eq,
  list_eq, Result, ok, concat, All,
}
use magic_share.Exec.{Exec, pure, continue, ◌>>=◌, fold}
use magic_share.Map.{HashMap}
use magic_share.Rtc.{Bytes, DataChannelMessage, text, binary, delimiter, chunk_size}
use magic_share.Rtc.Chunks.{process_in_chunks}
use magic_share.Rtc.Chunks.Emit.{Chunking, process_in_chunks-fold}
use magic_share.Rtc.Io.{take_first, Text, Io, Codec, RtcFile, RtcSendFileResponse}
use magic_share.Rtc.Transfer.{
  RtcSendFileHeaderRequest, FileSizes, send_piece, send_content, send_entry, send_files,
  send_all_files,
}
use magic_share.Rtc.Transfer.Wire.{Item, header_of, wire, beyond, verdicts, answers, Expected}

fold-send_piece :
    (cs : List Bytes) (k : ℕ) (io : Io)
    → fold send_piece tt cs (record io { capacity = beyond cs k })
      ≡ (ok tt, record io { capacity = k; outbox = io.outbox ++ map binary cs })
unfolding fold
fold-send_piece [] k io = rw (append-nil io.outbox) refl
fold-send_piece (c ∷ cs) k io =
    fold-send_piece cs k (record io { outbox = io.outbox ++ binary c ∷ [] })
    ∙ rw (append_assoc io.outbox (binary c ∷ []) (map binary cs)) refl

-- The chunks that a stream is cut into, and the sending of them.
pub send_chunks :
    (pieces : List Bytes)
    → (cs : List Bytes) × (concat cs ≡ concat pieces)
      × Chunking chunk_size cs
      × ((k : ℕ) (io : Io)
          → process_in_chunks tt pieces send_piece (record io { capacity = beyond cs k })
            ≡ (ok tt, record io { capacity = k; outbox = io.outbox ++ map binary cs }))
send_chunks pieces =
    let (cs, whole, sizes, run) = process_in_chunks-fold tt pieces send_piece in
    (
      cs,
      whole,
      sizes,
      λ k io. rw run (
          ap (λ (p : Result (Unit {0}) × Io). continue {B = Unit {0}} p.0 (λ _. pure tt) p.1)
            (fold-send_piece cs k io)),
    )

-- The second item is the first with its bytes cut into chunks: all but the last chunk are full.
pub record Cut (x y : Item) : Type 0 where
  pub same_id : y.file.file_id ≡ x.file.file_id
  pub same_token : y.token ≡ x.token
  pub same_size : y.size ≡ x.size
  pub same_verdict : y.verdict ≡ x.verdict
  pub same_bytes : concat y.file.pieces ≡ concat x.file.pieces
  pub chunked : Chunking chunk_size y.file.pieces

abbrev pub Cuts : List Item → List Item → Type 0
Cuts [] [] = Unit
Cuts [] (y ∷ ys) = ⊥
Cuts (x ∷ xs) [] = ⊥
Cuts (x ∷ xs) (y ∷ ys) = Cut x y × Cuts xs ys

abbrev cut : Item → List Bytes → Item
cut x cs = record x { file = record x.file { pieces = cs } }

abbrev pub files : List Item → List RtcFile
files [] = []
files (x ∷ xs) = x.file ∷ files xs

-- `n` more than the messages of the files.
abbrev pub beyond_messages : List Item → ℕ → ℕ
beyond_messages [] n = n
beyond_messages (x ∷ xs) n = suc (beyond x.file.pieces (beyond_messages xs n))

module _ (tokens : HashMap Text Text) (sizes : FileSizes) where
  pub Cuts-Expected :
      (xs ys : List Item)
      → Cuts xs ys
      → All (Expected tokens sizes) xs
      → All (Expected tokens sizes) ys
  Cuts-Expected [] [] c all = tt
  Cuts-Expected [] (y ∷ ys) c all = elim c [ ]
  Cuts-Expected (x ∷ xs) [] c all = elim c [ ]
  Cuts-Expected (x ∷ xs) (y ∷ ys) (c, cs) ((e, f), all) =
      ((rw (c.same_id, c.same_token) e, rw (c.same_id, c.same_size) f), Cuts-Expected xs ys cs all)

pub Cuts-verdicts :
    (xs ys : List Item) (more : List RtcSendFileResponse)
    → Cuts xs ys
    → verdicts xs more ≡ verdicts ys more
Cuts-verdicts [] [] more c = refl
Cuts-verdicts [] (y ∷ ys) more c = elim c [ ]
Cuts-verdicts (x ∷ xs) [] more c = elim c [ ]
Cuts-verdicts (x ∷ xs) (y ∷ ys) more (c, cs) = rw (c.same_verdict, Cuts-verdicts xs ys more cs) refl

pub Cuts-answers :
    (json : RtcSendFileResponse → Bytes) (xs ys : List Item)
    → Cuts xs ys
    → answers json xs ≡ answers json ys
Cuts-answers json [] [] c = refl
Cuts-answers json [] (y ∷ ys) c = elim c [ ]
Cuts-answers json (x ∷ xs) [] c = elim c [ ]
Cuts-answers json (x ∷ xs) (y ∷ ys) (c, cs) =
    rw (c.same_verdict, c.same_id, Cuts-answers json xs ys cs) refl

recv_returns :
    (io : Io) (inbox : List DataChannelMessage)
    → let m : Exec Io (Unit {0}) = ((λ w. take_first w inbox) >>= λ _. pure tt) in
      ((m io).0 ≡ ok tt) × ((m io).1.outbox ≡ io.outbox)
recv_returns io [] = (refl, refl)
recv_returns io (msg ∷ rest) = (refl, refl)

module _ (json : Codec RtcSendFileHeaderRequest) where
  abbrev body : List Item → List DataChannelMessage
  body [] = []
  body (x ∷ xs) =
      text (json.encode (header_of x.file x.token)) ∷ (map binary x.file.pieces ++ body xs)

  wire-body : (xs : List Item) → body xs ++ delimiter ∷ [] ≡ wire json [] xs
  wire-body [] = refl
  wire-body (x ∷ xs) =
      let announced = text (json.encode (header_of x.file x.token)) in
      ap (◌∷◌ announced) (
        append_assoc (map binary x.file.pieces) (body xs) (delimiter ∷ [])
        ∙ ap (◌++◌ (map binary x.file.pieces)) (wire-body xs))

  module _ (tokens : HashMap Text Text) (sizes : FileSizes) where
    files_sent :
        (xs : List Item)
        → All (Expected tokens sizes) xs
        → (ys : List Item) × Cuts xs ys
          × ((k : ℕ) (io : Io)
              → send_files json tokens (files xs) (record io { capacity = beyond_messages ys k })
                ≡ (ok tt, record io { capacity = k; outbox = io.outbox ++ body ys }))
    unfolding send_files send_entry send_content
    files_sent [] all = ([], tt, λ k io. rw (append-nil io.outbox) refl)
    files_sent (x ∷ xs) (ex, all) =
        let (ys, cuts, run) = files_sent xs all in
        let (cs, whole, sizes', chunks_run) = send_chunks x.file.pieces in
        let announced = text (json.encode (header_of x.file x.token)) in
        let first : Cut x (cut x cs) = record {
          same_id = refl;
          same_token = refl;
          same_size = refl;
          same_verdict = refl;
          same_bytes = whole;
          chunked = sizes';
        } in
        (
          cut x cs ∷ ys,
          (first, cuts),
          λ k io.
              rw
                (
                  ex.0,
                  chunks_run (beyond_messages ys k)
                      (record io { outbox = io.outbox ++ announced ∷ [] }),
                )
                (run k (record io { outbox = (io.outbox ++ announced ∷ []) ++ map binary cs })
                  ∙ rw
                      (
                        append_assoc io.outbox (announced ∷ []) (map binary cs),
                        append_assoc io.outbox (announced ∷ map binary cs) (body ys),
                      )
                      refl),
        )

    -- On a channel that takes the messages, the sending task returns, and the files are on the wire.
    pub files_on_wire :
        (xs : List Item)
        → All (Expected tokens sizes) xs
        → (ys : List Item) × Cuts xs ys
          × ((k : ℕ) (io : Io)
              → let sent =
                  send_all_files json tokens
                    (files xs)
                    (record io { capacity = beyond_messages ys (suc k) }) in
                (sent.0 ≡ ok tt) × (sent.1.outbox ≡ io.outbox ++ wire json [] ys))
    unfolding send_all_files
    files_on_wire xs all =
        let (ys, cuts, run) = files_sent xs all in
        (
          ys,
          cuts,
          λ k io.
              let done = record io {
                capacity = k;
                outbox = (io.outbox ++ body ys) ++ delimiter ∷ [];
              } in
              let (returns, sent) = recv_returns done io.inbox in
              rw (run (suc k) io) (
                returns,
                sent
                    ∙ append_assoc io.outbox (body ys) (delimiter ∷ [])
                    ∙ ap (◌++◌ io.outbox) (wire-body ys),
              ),
        )

  pub send_nothing :
      (tokens : HashMap Text Text) (k : ℕ) (io : Io)
      → (send_all_files json tokens [] (record io { outbox = []; capacity = suc k })).1.outbox
        ≡ delimiter ∷ []
  unfolding send_all_files send_files
  send_nothing tokens k io =
      (recv_returns (record io { outbox = delimiter ∷ []; capacity = k }) io.inbox).1
