-- ===== src/Rtc/Session/Sender/Turns.antt =====
-- What the sender of a session has sent by the time it waits for the next part of the receiver's
-- stream: the stream is cut there.
use magic_share.Base.{ℕ, suc, ◌≡◌, refl, true, none, List, [], ◌∷◌, ◌++◌, map}
use magic_share.Crypto.{validate_nonce}
use magic_share.Rtc.{Bytes, binary, delimiter}
use magic_share.Rtc.Io.{Io, RtcStatus}
use magic_share.Rtc.Messages.{RtcPinSendingResponse}
use magic_share.Rtc.Chunks.Roundtrip.{receive-nothing}
use magic_share.Rtc.Nonce.{same_nonce}
use magic_share.Rtc.Nonce.Waits.{sender_nonce-first}
use magic_share.Rtc.Transfer.Wire.{beyond}
use magic_share.Rtc.Session.{Crates, receive_text, expect_text, receive_whole}
use magic_share.Rtc.Session.Carried.{Expects, token_message, accepted_message, nonce_text, Carries}
use magic_share.Rtc.Session.Sender.Agree.{sender_authenticated}
use magic_share.Rtc.Session.Sender.{
  SenderConfig, sender_authenticate, send_token, receive_token_response, sender_negotiate,
  send_task, answer_challenge, challenge, send_file_list, told, receive_file_list_response,
}

module _ (c : Crates) (cs : SenderConfig c) (key : c.ed.SigningKey) (remote_nonce : Bytes)
    (sender_valid : validate_nonce cs.local_nonce ≡ true)
    (receiver_valid : validate_nonce remote_nonce ≡ true)
    (expects : Expects c cs.expecting_public_key key) where
  abbrev nonce : Bytes
  nonce = cs.local_nonce ++ remote_nonce

  pub send_task-nonce :
      (k : ℕ) (io : Io)
      → (send_task c cs
          (record io { inbox = []; outbox = []; capacity = suc k; listening = true })).1.outbox
        ≡ nonce_text c cs.local_nonce ∷ []
  unfolding send_task sender_authenticate
  send_task-nonce k io =
      rw
        (sender_nonce-first c.json.nonce c.b64 cs.local_nonce k
          (record io { outbox = []; listening = true }))
        refl

  pub send_task-token :
      (k : ℕ) (io : Io)
      → (send_task c cs (record io {
        inbox = nonce_text c remote_nonce ∷ [];
        outbox = [];
        capacity = suc (suc k);
        listening = true;
      })).1.outbox
        ≡ nonce_text c cs.local_nonce ∷ token_message c cs.signing_key nonce ∷ []
  unfolding send_task sender_authenticate send_token receive_token_response receive_text expect_text
  send_task-token k io =
      rw
        (same_nonce c.json.nonce c.b64 cs.local_nonce remote_nonce (suc k) 0 [] []
          (record io { outbox = []; listening = true }) io sender_valid receiver_valid).0
        refl

  pub send_task-list :
      (list_chunks : List Bytes)
      → cs.pin ≡ none
      → c.json.file_list.decode [] ≡ none
      → Carries (c.json.pin_sending.encode (RtcPinSendingResponse.file_list cs.files)) list_chunks
      → (n : ℕ) (io : Io)
      → (send_task c cs (record io {
        inbox = nonce_text c remote_nonce ∷ accepted_message c key nonce ∷ [];
        outbox = [];
        capacity = suc (suc (beyond list_chunks (suc n)));
        listening = true;
      })).1.outbox
        ≡ nonce_text c cs.local_nonce
          ∷ token_message c cs.signing_key nonce
          ∷ (map binary list_chunks ++ delimiter ∷ [])
  unfolding send_task sender_negotiate answer_challenge challenge send_file_list told
      receive_file_list_response receive_whole
  send_task-list list_chunks no_pin no_text list_carried n io =
      rw
        (
          sender_authenticated c cs key remote_nonce sender_valid receiver_valid expects
              (beyond list_chunks (suc n)) [] (record io { outbox = []; listening = true }),
          no_pin,
          list_carried.sends n (record io {
            inbox = [];
            listening = true;
            outbox = nonce_text c cs.local_nonce ∷ token_message c cs.signing_key nonce ∷ [];
            statuses = io.statuses ++ RtcStatus.connected ∷ [];
          }),
          receive-nothing,
          no_text,
        )
        refl
