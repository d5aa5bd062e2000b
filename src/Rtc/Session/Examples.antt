-- ===== src/Rtc/Session/Examples.antt =====
-- The theorems on sessions at two peers who know each other's keys.
use magic_share.Base.{
  arith, ◌⊎◌, err, ℕ, suc, ◌≡◌, refl, inl, inr, true, false, some, none, List, [], ◌∷◌, codes, ok,
  number_eq, list_eq,
}
use magic_share.Crypto.{validate_nonce}
use magic_share.Crypto.Token.{to_verifying_key}
use magic_share.Rtc.Io.Sends.{Grows}
use magic_share.Rtc.Messages.{RtcPinSendingResponse, RtcPinReceivingResponse}
use magic_share.Map.{get}
use magic_share.Rtc.{Bytes, text}
use magic_share.Rtc.Io.{Io, FileDto, RtcSendFileResponse, RtcStatus}
use magic_share.Rtc.Transfer.Wire.{Item, Expected, beyond, beyond_pieces, verdicts, newest_first}
use magic_share.Rtc.Transfer.Send.{Cuts, beyond_messages}
use magic_share.Rtc.Session.Sender.{SenderConfig, send_task}
use magic_share.Rtc.Session.Receiver.{
  ReceiverConfig, send_pin_result, receiver_authenticate, receiver_negotiate, receive_task,
  issue_tokens, sizes_of,
}
use magic_share.Rtc.Session.Carried.{nonce_text, token_message}
use magic_share.Rtc.Session.Sender.Guard.{Signed, sent_authenticated}
use magic_share.Rtc.Session.Receiver.Guard.{
  PinPassed, result_quiet, result_takes_room, Signed as OfferSigned, offered_authenticated,
  offered_with_pin,
}
use magic_share.Rtc.Pin.{verify_pin}
use magic_share.Rtc.Pin.Verdict.{guess_messages, verify_pin_completes}
use magic_share.Rtc.Session.Receiver.EmptyPin.{empty_pin_fails}
use magic_share.Rtc.Session.Streams.{Compatible, InTurn, from_sender, from_receiver}
use magic_share.Rtc.Session.Whole.{session_delivers}
use magic_share.Rtc.Session.ToyJson.{toy, header_long}

abbrev pub photo : FileDto
photo = record {
  id = codes "a";
  file_name = codes "photo.jpg";
  size = 5;
  file_type = codes "image/jpeg";
  sha256 = none;
  preview = none;
  metadata = none;
}

abbrev pub one : Item
one = record {
  file = record { file_id = codes "a"; pieces = codes "he" ∷ codes "llo" ∷ [] };
  token = codes "ta";
  size = 5;
  verdict = record { id = codes "a"; success = true; error = none };
}

abbrev pub sender : SenderConfig toy
sender = record {
  signing_key = 7;
  expecting_public_key = some (to_verifying_key toy.ed 9);
  pin = none;
  files = photo ∷ [];
  local_nonce = codes "0123456789abcdef";
  pin_answers = [];
  pair_answer = none;
  waits_for_selection = true;
  sending = one.file ∷ [];
}

abbrev pub receiver : ReceiverConfig toy
receiver = record {
  signing_key = 9;
  expecting_public_key = some (to_verifying_key toy.ed 7);
  pin = none;
  local_nonce = codes "fedcba9876543210";
  pin_answers = [];
  takes_files = true;
  selected = some (some (codes "a" ∷ []));
  new_token = λ id. b't' ∷ id;
}

abbrev idle : Io
idle = record {
  inbox = [];
  outbox = [];
  statuses = [];
  capacity = 0;
  listening = true;
  errors = [];
  file_results = [];
  received = [];
  offered = none;
  selection = none;
  appetite = 0;
}

pub ready : Compatible toy sender receiver (codes "a" ∷ [])
unfolding validate_nonce
ready = record {
  sender_valid = refl;
  receiver_valid = refl;
  sender_expects = inr refl;
  receiver_expects = inr refl;
  no_sender_pin = refl;
  no_receiver_pin = refl;
  waits = refl;
  takes = refl;
  chosen = refl;
}

pub one-Expected :
    Expected (issue_tokens receiver.new_token (codes "a" ∷ [])) (sizes_of sender.files) one
unfolding get
one-Expected = (refl, refl)

session_delivers_example :
    (list_chunks token_chunks : List Bytes) × (ys : List Item) × Cuts (one ∷ []) ys
    × ((k n m : ℕ) (more : List RtcSendFileResponse) (mine theirs : Io)
        → let sent = send_task toy sender (record mine {
          inbox = from_receiver toy sender receiver token_chunks (one ∷ []);
          outbox = [];
          capacity = suc (suc (beyond list_chunks (suc (beyond_messages ys (suc k)))));
          listening = true;
        }) in
          let got = receive_task toy receiver (record theirs {
            inbox = from_sender toy sender receiver list_chunks ys;
            outbox = [];
            capacity = suc (suc (beyond token_chunks (suc (beyond ys n))));
            listening = true;
            file_results = verdicts (one ∷ []) more;
            appetite = beyond_pieces ys m;
          }) in
          (sent.0 ≡ ok tt)
          × (sent.1.outbox ≡ from_sender toy sender receiver list_chunks ys)
          × (got.0 ≡ ok tt)
          × (got.1.outbox ≡ from_receiver toy sender receiver token_chunks (one ∷ []))
          × (got.1.offered ≡ some (photo ∷ []))
          × (got.1.received ≡ newest_first ys theirs.received)
          × (got.1.errors ≡ theirs.errors)
          × InTurn toy sender receiver list_chunks token_chunks ys
              (λ inbox.
                (send_task toy sender (record mine {
                  inbox = inbox;
                  outbox = [];
                  capacity = suc (suc (beyond list_chunks (suc (beyond_messages ys (suc k)))));
                  listening = true;
                })).1.outbox)
              (λ inbox.
                (receive_task toy receiver (record theirs {
                  inbox = inbox;
                  outbox = [];
                  capacity = suc (suc (beyond token_chunks (suc (beyond ys n))));
                  listening = true;
                  file_results = verdicts (one ∷ []) more;
                  appetite = beyond_pieces ys m;
                })).1.outbox))
session_delivers_example =
    session_delivers toy sender receiver (codes "a" ∷ []) ready header_long refl refl one [] refl
      (one-Expected, tt)

-- What a stranger might send: a nonce, a token of another key, and a file list.
abbrev stranger : Io
stranger = record idle {
  inbox =
      nonce_text toy (codes "0123456789abcdef")
      ∷ token_message toy 8 (codes "0123456789abcdeffedcba9876543210")
      ∷ text (toy.json.pin_sending.encode (RtcPinSendingResponse.file_list (photo ∷ [])))
      ∷ [];
  capacity = 9;
}

offered_authenticated_example :
    ((receive_task toy receiver stranger).1.offered ≡ none)
    ⊎ OfferSigned toy receiver (to_verifying_key toy.ed 7) stranger.inbox
offered_authenticated_example =
    offered_authenticated toy receiver (to_verifying_key toy.ed 7) stranger refl

sent_authenticated_example :
    Grows 2 stranger (send_task toy sender stranger).1
    ⊎ Signed toy sender (to_verifying_key toy.ed 9) stranger.inbox
sent_authenticated_example = sent_authenticated toy sender (to_verifying_key toy.ed 9) stranger refl

abbrev careful : ReceiverConfig toy
careful = record receiver { pin = some (record { pin = codes "12"; max_tries = 2 }) }

offered_with_pin_example :
    ((receive_task toy careful stranger).1.offered ≡ none)
    ⊎ PinPassed toy careful
        (record { pin = codes "12"; max_tries = 2 })
        (receiver_authenticate toy careful stranger).1
offered_with_pin_example =
    offered_with_pin toy careful (record { pin = codes "12"; max_tries = 2 }) stranger refl
      (omega arith)

abbrev forgetful : ReceiverConfig toy
forgetful = record receiver { pin = some (record { pin = []; max_tries = 2 }) }

empty_pin_fails_example :
    receiver_negotiate toy forgetful
      (record idle { inbox = text (toy.json.pin.encode (codes "12")) ∷ []; capacity = 1 })
    ≡ (
      err "Failed to deserialize file list response",
      record idle {
        statuses = RtcStatus.pin_required ∷ [];
        outbox = text (toy.json.pin_receiving.encode RtcPinReceivingResponse.passed) ∷ [];
      },
    )
empty_pin_fails_example = empty_pin_fails toy forgetful 2 0 (codes "12") [] idle refl refl

-- The sender's second guess is right.
abbrev guessing : Io
guessing = record idle {
  inbox = guess_messages toy.json.pin (codes "9" ∷ codes "12" ∷ codes "7" ∷ []);
  capacity = 2;
}

verify_pin_completes_example :
    (verify_pin toy.json.pin
      (record { pin = codes "12"; max_tries = 2 })
      (send_pin_result toy careful)
      false
      guessing).0
    ≡ ok tt
verify_pin_completes_example =
    verify_pin_completes toy.json.pin (record { pin = codes "12"; max_tries = 2 })
      (send_pin_result toy careful) (result_quiet toy careful) (result_takes_room toy careful) false
      (codes "9" ∷ codes "12" ∷ codes "7" ∷ []) guessing refl (omega arith) (omega arith) refl
      (inr (omega arith, inr (omega arith, inl refl)))
