-- ===== src/Rtc/Session/Receiver/EmptyPin.antt =====
-- A receiver whose PIN is set but empty, and a sender who sends a PIN.
use magic_share.Base.{ℕ, suc, ◌≡◌, refl, true, false, some, none, List, [], ◌∷◌, ◌++◌, err}
use magic_share.Rtc.{DataChannelMessage, text}
use magic_share.Rtc.Chunks.Roundtrip.{receive-map}
use magic_share.Rtc.Io.{Io, RtcStatus}
use magic_share.Rtc.Pin.{Pin}
use magic_share.Rtc.Pin.Verdict.{verify_pin_empty}
use magic_share.Rtc.Messages.{RtcPinReceivingResponse}
use magic_share.Rtc.Session.{Crates, receive_whole}
use magic_share.Rtc.Session.Receiver.{
  ReceiverConfig, challenge, receive_file_list, receiver_negotiate, send_pin_result,
}

module _ (c : Crates) (cfg : ReceiverConfig c) where
  -- Where the receiver's PIN is set to the empty text, its app listens, the channel takes a message
  -- and the first message that waits is a PIN: the challenge lets the sender pass before it takes
  -- the PIN, and the PIN message, whatever it holds, is then taken for the end of the sender's file
  -- list. Where no message is written as the empty text, as in JSON, the negotiation fails, with
  -- the receiver's `Ok` on the channel.
  pub empty_pin_fails :
      (max_tries k : ℕ) (typed : Pin) (rest : List DataChannelMessage) (io : Io)
      → cfg.pin ≡ some (record { pin = []; max_tries = max_tries })
      → c.json.pin_sending.decode [] ≡ none
      → receiver_negotiate c cfg (record io {
        inbox = text (c.json.pin.encode typed) ∷ rest;
        capacity = suc k;
        listening = true;
      })
        ≡ (
          err "Failed to deserialize file list response",
          record io {
            inbox = rest;
            capacity = k;
            listening = true;
            statuses = io.statuses ++ RtcStatus.pin_required ∷ [];
            outbox =
                io.outbox ++ text (c.json.pin_receiving.encode RtcPinReceivingResponse.passed) ∷ [];
          },
        )
  unfolding receiver_negotiate challenge receive_file_list receive_whole
  empty_pin_fails max_tries k typed rest io e d =
      rw
        (
          e,
          verify_pin_empty c.json.pin max_tries (send_pin_result c cfg) false
              (record io { inbox = text (c.json.pin.encode typed) ∷ rest; capacity = suc k }),
          receive-map [] (c.json.pin.encode typed) rest,
          d,
        )
        refl
