-- ===== src/Rtc/Transfer/Examples.antt =====
-- The theorems on transfers at one small file and a toy codec.
use magic_share.Base.{
  ◌≡◌, refl, ap, List, [], ◌∷◌, ◌++◌, codes, ok, err, none, some, ℕ, suc, arith, true, length, take,
  drop, Option, number_eq, list_eq,
}
use magic_share.Rtc.{Bytes, DataChannelMessage, delimiter, binary, text}
use magic_share.Rtc.Io.{Io, Codec, RtcSendFileResponse, Text}
use magic_share.Map.{HashMap, get}
use magic_share.Rtc.Transfer.{RtcSendFileHeaderRequest, FileSizes, receive_files, send_all_files}
use magic_share.Rtc.Transfer.Wire.{
  Item, verdicts, beyond, beyond_pieces, newest_first, answers, Expected,
}
use magic_share.Rtc.Transfer.Send.{Cuts, files, beyond_messages}
use magic_share.Rtc.Transfer.Delivery.{files_delivered, no_files_fail}
use magic_share.Rtc.Transfer.Sound.{Gains, Announced, receive_files_sound}

take-append : (a b : Bytes) → take (length a) (a ++ b) ≡ a
take-append [] b = refl
take-append (x ∷ a) b = ap (◌∷◌ x) (take-append a b)

drop-append : (a b : Bytes) → drop (length a) (a ++ b) ≡ b
drop-append [] b = refl
drop-append (x ∷ a) b = drop-append a b

-- The id with its length in front, then the token.
abbrev decode_header : Bytes → Option RtcSendFileHeaderRequest
decode_header [] = none
decode_header (n ∷ []) = none
decode_header (n ∷ m ∷ b) = some (record { id = take n b; token = drop n b })

decode-header :
    (h : RtcSendFileHeaderRequest) → decode_header (length h.id ∷ 0 ∷ (h.id ++ h.token)) ≡ some h
decode-header h = rw (take-append h.id h.token, drop-append h.id h.token) refl

abbrev prefixed : Codec RtcSendFileHeaderRequest
prefixed = record {
  encode = λ h. length h.id ∷ 0 ∷ (h.id ++ h.token);
  decode = decode_header;
  decode-encode = decode-header;
}

abbrev respond : RtcSendFileResponse → Bytes
respond r = r.id

abbrev one : Item
one = record {
  file = record { file_id = codes "a"; pieces = codes "he" ∷ codes "llo" ∷ [] };
  token = codes "t";
  size = 5;
  verdict = record { id = codes "a"; success = true; error = none };
}

abbrev tokens : HashMap Text Text
tokens = (codes "a", codes "t") ∷ []

abbrev sizes : FileSizes
sizes = (codes "a", 5) ∷ []

abbrev idle : Io
idle = record {
  inbox = [];
  outbox = [];
  statuses = [];
  capacity = 0;
  listening = true;
  errors = [];
  file_results = [];
  received = [];
  offered = none;
  selection = none;
  appetite = 0;
}

one-Expected : Expected tokens sizes one
unfolding get
one-Expected = (refl, refl)

files_delivered_example :
    (ys : List Item) × Cuts (one ∷ []) ys
    × ((k l n : ℕ) (more : List RtcSendFileResponse) (sender receiver : Io)
        → let sent =
            send_all_files prefixed tokens
              (files (one ∷ []))
              (record sender { outbox = []; capacity = beyond_messages ys (suc k) }) in
          (sent.0 ≡ ok tt)
          × (receive_files prefixed respond tokens sizes sent.1.outbox none (record receiver {
            file_results = verdicts (one ∷ []) more;
            capacity = beyond ys l;
            appetite = beyond_pieces ys n;
          })
              ≡ (
                ok tt,
                record receiver {
                  received = newest_first ys receiver.received;
                  file_results = more;
                  capacity = l;
                  outbox = receiver.outbox ++ answers respond (one ∷ []);
                  appetite = n;
                },
              )))
files_delivered_example =
    files_delivered prefixed respond tokens sizes (λ h. omega arith) one [] (one-Expected, tt)

no_files_fail_example :
    let sent = send_all_files prefixed tokens [] (record idle { outbox = []; capacity = 3 }) in
    (sent.1.outbox ≡ delimiter ∷ [])
    × (receive_files prefixed respond tokens sizes sent.1.outbox none idle
        ≡ (err "invalid file header", idle))
no_files_fail_example =
    no_files_fail prefixed respond tokens sizes (λ h. omega arith) refl 2 idle idle

-- A header with a wrong token, one with the right token, and a piece.
abbrev mixed : List DataChannelMessage
mixed =
    text (prefixed.encode (record { id = codes "a"; token = codes "x" }))
    ∷ text (prefixed.encode (record { id = codes "a"; token = codes "t" }))
    ∷ binary (codes "hello")
    ∷ []

receive_files_sound_example :
    Gains
      (Announced prefixed respond tokens sizes mixed)
      (record idle { appetite = 1 })
      (receive_files prefixed respond tokens sizes mixed none (record idle { appetite = 1 })).1
receive_files_sound_example =
    receive_files_sound prefixed respond tokens sizes mixed none (record idle { appetite = 1 })
