-- ===== src/Rtc/Session/Sender/Agree.antt =====
-- The sender of a session with a peer that it trusts, and that trusts it.
use magic_share.Base.{
  ℕ, suc, ◌≡◌, refl, true, some, none, List, [], ◌∷◌, ◌++◌, map, append_assoc, ok,
}
use magic_share.Crypto.{validate_nonce}
use magic_share.Crypto.Token.{generate_token_nonce}
use magic_share.Map.{HashMap}
use magic_share.Rtc.{Bytes, DataChannelMessage, binary, delimiter}
use magic_share.Rtc.Io.{Io, Text, RtcStatus}
use magic_share.Rtc.Messages.{RtcTokenResponse, RtcPinSendingResponse, RtcFileListResponse}
use magic_share.Rtc.Nonce.{same_nonce}
use magic_share.Rtc.Transfer.{send_all_files}
use magic_share.Rtc.Transfer.Wire.{beyond}
use magic_share.Rtc.Session.{Crates, receive_text}
use magic_share.Rtc.Session.Carried.{
  Expects, expected_passes, token_message, accepted_message, nonce_text, Carries,
}
use magic_share.Rtc.Session.Sender.{
  SenderConfig, sender_authenticate, send_token, receive_token_response, check_token_response,
  sender_negotiate, send_task, send_selected, publish_selection, keys, answer_challenge, challenge,
  send_file_list, told, receive_file_list_response, file_map,
}

module _ (c : Crates) (cs : SenderConfig c) (key : c.ed.SigningKey) (remote_nonce : Bytes)
    (sender_valid : validate_nonce cs.local_nonce ≡ true)
    (receiver_valid : validate_nonce remote_nonce ≡ true)
    (expects : Expects c cs.expecting_public_key key) where
  abbrev nonce : Bytes
  nonce = cs.local_nonce ++ remote_nonce

  abbrev token : Text
  token = generate_token_nonce c.b64 c.sha256 c.ed key nonce

  pub sender_authenticated :
      (k : ℕ) (rest : List DataChannelMessage) (io : Io)
      → sender_authenticate c cs (record io {
        inbox = nonce_text c remote_nonce ∷ accepted_message c key nonce ∷ rest;
        capacity = suc (suc k);
      })
        ≡ (
          ok (nonce, token, RtcTokenResponse.accepted token),
          record io {
            inbox = rest;
            capacity = k;
            outbox =
                io.outbox
                ++ nonce_text c cs.local_nonce ∷ token_message c cs.signing_key nonce ∷ [];
          },
        )
  unfolding sender_authenticate send_token receive_token_response check_token_response receive_text
  sender_authenticated k rest io =
      let after = record io {
        inbox = rest;
        capacity = k;
        outbox =
            (io.outbox ++ nonce_text c cs.local_nonce ∷ [])
            ++ token_message c cs.signing_key nonce ∷ [];
      } in
      rw
        (
          (same_nonce c.json.nonce c.b64 cs.local_nonce remote_nonce (suc k) 0
              (accepted_message c key nonce ∷ rest) [] io io sender_valid receiver_valid).0,
          c.json.token_response.decode-encode (RtcTokenResponse.accepted token),
          expected_passes c cs.expecting_public_key key nonce after expects,
        )
        (rw
          (append_assoc io.outbox (nonce_text c cs.local_nonce ∷ [])
            (token_message c cs.signing_key nonce ∷ []))
          refl)

module _ (c : Crates) (cs : SenderConfig c) (no_pin : cs.pin ≡ none) (tokens : HashMap Text Text)
    (list_chunks token_chunks : List Bytes)
    (list_carried : Carries
      (c.json.pin_sending.encode (RtcPinSendingResponse.file_list cs.files))
      list_chunks)
    (tokens_carried : Carries
      (c.json.file_list.encode (RtcFileListResponse.tokens tokens))
      token_chunks) where
  pub sender_negotiated :
      (nonce : Bytes) (token : Text) (k : ℕ) (rest : List DataChannelMessage) (io : Io)
      → sender_negotiate c cs
          (nonce, token, RtcTokenResponse.accepted token)
          (record io {
            inbox = map binary token_chunks ++ delimiter ∷ rest;
            capacity = beyond list_chunks (suc k);
            listening = true;
          })
        ≡ (
          ok (some tokens),
          record io {
            inbox = rest;
            capacity = k;
            listening = true;
            statuses = io.statuses ++ RtcStatus.connected ∷ [];
            outbox = io.outbox ++ (map binary list_chunks ++ delimiter ∷ []);
          },
        )
  unfolding sender_negotiate answer_challenge challenge send_file_list told
      receive_file_list_response file_map
  sender_negotiated nonce token k rest io =
      let connected = record io {
        inbox = map binary token_chunks ++ delimiter ∷ rest;
        listening = true;
        statuses = io.statuses ++ RtcStatus.connected ∷ [];
      } in
      let sent = record connected {
        capacity = k;
        outbox = io.outbox ++ (map binary list_chunks ++ delimiter ∷ []);
      } in
      rw
        (
          no_pin,
          list_carried.sends k connected,
          tokens_carried.receives sent rest,
          c.json.file_list.decode-encode (RtcFileListResponse.tokens tokens),
        )
        refl

-- The sender's part of a session, up to the wish for these files.
module _ (c : Crates) (cs : SenderConfig c) (key : c.ed.SigningKey) (remote_nonce : Bytes)
    (sender_valid : validate_nonce cs.local_nonce ≡ true)
    (receiver_valid : validate_nonce remote_nonce ≡ true)
    (expects : Expects c cs.expecting_public_key key) (no_pin : cs.pin ≡ none)
    (waits : cs.waits_for_selection ≡ true) (tokens : HashMap Text Text)
    (list_chunks token_chunks : List Bytes)
    (list_carried : Carries
      (c.json.pin_sending.encode (RtcPinSendingResponse.file_list cs.files))
      list_chunks)
    (tokens_carried : Carries
      (c.json.file_list.encode (RtcFileListResponse.tokens tokens))
      token_chunks) where
  abbrev joint_nonce : Bytes
  joint_nonce = cs.local_nonce ++ remote_nonce

  pub send_task_sends :
      (n : ℕ) (rest : List DataChannelMessage) (io : Io)
      → send_task c cs (record io {
        inbox =
            nonce_text c remote_nonce
            ∷ accepted_message c key joint_nonce
            ∷ (map binary token_chunks ++ delimiter ∷ rest);
        outbox = [];
        capacity = suc (suc (beyond list_chunks (suc n)));
        listening = true;
      })
        ≡ send_all_files c.json.header tokens cs.sending (record io {
          inbox = rest;
          outbox =
              nonce_text c cs.local_nonce
              ∷ token_message c cs.signing_key joint_nonce
              ∷ (map binary list_chunks ++ delimiter ∷ []);
          capacity = n;
          listening = true;
          statuses = io.statuses ++ RtcStatus.connected ∷ [];
          selection = some (keys tokens);
        })
  unfolding send_task send_selected publish_selection
  send_task_sends n rest io =
      let token = generate_token_nonce c.b64 c.sha256 c.ed key joint_nonce in
      rw
        (
          sender_authenticated c cs key remote_nonce sender_valid receiver_valid expects
              (beyond list_chunks (suc n)) (map binary token_chunks ++ delimiter ∷ rest)
              (record io { outbox = []; listening = true }),
          sender_negotiated c cs no_pin tokens list_chunks token_chunks list_carried tokens_carried
              joint_nonce token n rest
              (record io {
                outbox =
                    nonce_text c cs.local_nonce ∷ token_message c cs.signing_key joint_nonce ∷ [];
              }),
          waits,
        )
        refl
