-- ===== src/Rtc/Session/Receiver/Turns.antt =====
-- What the receiver of a session has sent by the time it waits for the next part of the sender's
-- stream: the stream is cut there.
use magic_share.Base.{ℕ, suc, ◌≡◌, refl, true, none, [], ◌∷◌, ◌++◌}
use magic_share.Crypto.{validate_nonce}
use magic_share.Rtc.{Bytes}
use magic_share.Rtc.Io.{Io}
use magic_share.Rtc.Chunks.Roundtrip.{receive-nothing}
use magic_share.Rtc.Nonce.{same_nonce}
use magic_share.Rtc.Session.{Crates, receive_text, expect_text, receive_whole}
use magic_share.Rtc.Session.Carried.{Expects, token_message, accepted_message, nonce_text}
use magic_share.Rtc.Session.Receiver.Agree.{receiver_authenticated}
use magic_share.Rtc.Session.Receiver.{
  ReceiverConfig, receiver_authenticate, receive_token, receiver_negotiate, receive_task, challenge,
  receive_file_list,
}

module _ (c : Crates) (cr : ReceiverConfig c) (key : c.ed.SigningKey) (remote_nonce : Bytes)
    (sender_valid : validate_nonce remote_nonce ≡ true)
    (receiver_valid : validate_nonce cr.local_nonce ≡ true)
    (expects : Expects c cr.expecting_public_key key) (no_pin : cr.pin ≡ none) where
  abbrev nonce : Bytes
  nonce = remote_nonce ++ cr.local_nonce

  pub receive_task-nonce :
      (k : ℕ) (io : Io)
      → (receive_task c cr (record io {
        inbox = nonce_text c remote_nonce ∷ [];
        outbox = [];
        capacity = suc k;
        listening = true;
      })).1.outbox
        ≡ nonce_text c cr.local_nonce ∷ []
  unfolding receive_task receiver_authenticate receive_token receive_text expect_text
  receive_task-nonce k io =
      rw
        (same_nonce c.json.nonce c.b64 remote_nonce cr.local_nonce 0 k [] [] io
          (record io { outbox = []; listening = true }) sender_valid receiver_valid).1
        refl

  pub receive_task-token :
      (k : ℕ) (io : Io)
      → c.json.pin_sending.decode [] ≡ none
      → (receive_task c cr (record io {
        inbox = nonce_text c remote_nonce ∷ token_message c key nonce ∷ [];
        outbox = [];
        capacity = suc (suc k);
        listening = true;
      })).1.outbox
        ≡ nonce_text c cr.local_nonce ∷ accepted_message c cr.signing_key nonce ∷ []
  unfolding receive_task receiver_negotiate challenge receive_file_list receive_whole
  receive_task-token k io no_text =
      rw
        (
          receiver_authenticated c cr key remote_nonce sender_valid receiver_valid expects no_pin k
              [] (record io { outbox = []; listening = true }),
          no_pin,
          receive-nothing,
          no_text,
        )
        refl
