-- ===== src/Rtc/Session/Receiver/Agree.antt =====
-- The receiver of a session with a peer that it trusts, and that trusts it.
use magic_share.Base.{
  ℕ, suc, ◌≡◌, refl, inl, inr, true, Option, some, none, List, [], ◌∷◌, ◌++◌, map, append_assoc, ok,
  number_eq, list_eq, ==-refl,
}
use magic_share.Crypto.{validate_nonce}
use magic_share.Crypto.Token.{VerifyingTokenKey, generate_token_nonce}
use magic_share.Crypto.Token.Roundtrip.{verify_nonce-generate}
use magic_share.Rtc.{Bytes, DataChannelMessage, binary, delimiter}
use magic_share.Rtc.Io.{Io, Text, FileDto, RtcStatus}
use magic_share.Rtc.Messages.{RtcPinSendingResponse, RtcFileListResponse}
use magic_share.Rtc.Nonce.{same_nonce}
use magic_share.Rtc.Transfer.{receive_files}
use magic_share.Rtc.Transfer.Wire.{beyond}
use magic_share.Rtc.Session.{Crates, receive_text}
use magic_share.Rtc.Session.Carried.{Expects, token_message, accepted_message, nonce_text, Carries}
use magic_share.Rtc.Session.Receiver.{
  ReceiverConfig, receiver_authenticate, receive_token, check_expected, refuse_token,
  send_token_response, token_response, receiver_negotiate, receive_task, serve_files, offer_files,
  select_files, receive_selected, issue_tokens, sizes_of, challenge, receive_file_list,
  answer_sender,
}

module _ (c : Crates) where
  expected_passes :
      (cr : ReceiverConfig c) (expected : Option VerifyingTokenKey) (key : c.ed.SigningKey)
      (nonce : Bytes) (io : Io)
      → Expects c expected key
      → check_expected c cr expected (generate_token_nonce c.b64 c.sha256 c.ed key nonce) nonce io
        ≡ (ok tt, io)
  unfolding check_expected refuse_token
  expected_passes cr expected key nonce io (inl e) = rw e refl
  expected_passes cr expected key nonce io (inr e) =
      rw (e, verify_nonce-generate c.b64 c.sha256 c.ed key nonce nonce, ==-refl nonce) refl

module _ (c : Crates) (cr : ReceiverConfig c) (key : c.ed.SigningKey) (remote_nonce : Bytes)
    (sender_valid : validate_nonce remote_nonce ≡ true)
    (receiver_valid : validate_nonce cr.local_nonce ≡ true)
    (expects : Expects c cr.expecting_public_key key) (no_pin : cr.pin ≡ none) where
  abbrev nonce : Bytes
  nonce = remote_nonce ++ cr.local_nonce

  abbrev token : Text
  token = generate_token_nonce c.b64 c.sha256 c.ed key nonce

  pub receiver_authenticated :
      (k : ℕ) (rest : List DataChannelMessage) (io : Io)
      → receiver_authenticate c cr (record io {
        inbox = nonce_text c remote_nonce ∷ token_message c key nonce ∷ rest;
        capacity = suc (suc k);
      })
        ≡ (
          ok (nonce, token),
          record io {
            inbox = rest;
            capacity = k;
            outbox =
                io.outbox
                ++ nonce_text c cr.local_nonce ∷ accepted_message c cr.signing_key nonce ∷ [];
          },
        )
  unfolding receiver_authenticate receive_token send_token_response token_response receive_text
  receiver_authenticated k rest io =
      let before = record io {
        inbox = rest;
        capacity = suc k;
        outbox = io.outbox ++ nonce_text c cr.local_nonce ∷ [];
      } in
      rw
        (
          (same_nonce c.json.nonce c.b64 remote_nonce cr.local_nonce 0 (suc k) []
              (token_message c key nonce ∷ rest) io io sender_valid receiver_valid).1,
          c.json.token_request.decode-encode token,
          expected_passes c cr cr.expecting_public_key key nonce before expects,
          no_pin,
        )
        (rw
          (append_assoc io.outbox (nonce_text c cr.local_nonce ∷ [])
            (accepted_message c cr.signing_key nonce ∷ []))
          refl)

  pub receiver_negotiated :
      (files : List FileDto) (list_chunks : List Bytes)
      → Carries (c.json.pin_sending.encode (RtcPinSendingResponse.file_list files)) list_chunks
      → (rest : List DataChannelMessage) (io : Io)
      → receiver_negotiate c cr
          (record io { inbox = map binary list_chunks ++ delimiter ∷ rest; listening = true })
        ≡ (
          ok files,
          record io {
            inbox = rest;
            listening = true;
            statuses = io.statuses ++ RtcStatus.connected ∷ [];
          },
        )
  unfolding receiver_negotiate challenge receive_file_list answer_sender
  receiver_negotiated files list_chunks list_carried rest io =
      rw
        (
          no_pin,
          list_carried.receives (record io { listening = true }) rest,
          c.json.pin_sending.decode-encode (RtcPinSendingResponse.file_list files),
        )
        refl

-- The receiver's part of a session, for the user's choice of these files.
module _ (c : Crates) (cr : ReceiverConfig c) (key : c.ed.SigningKey) (remote_nonce : Bytes)
    (sender_valid : validate_nonce remote_nonce ≡ true)
    (receiver_valid : validate_nonce cr.local_nonce ≡ true)
    (expects : Expects c cr.expecting_public_key key) (no_pin : cr.pin ≡ none)
    (takes : cr.takes_files ≡ true) (wanted : List Text) (chosen : cr.selected ≡ some (some wanted))
    (files : List FileDto) (list_chunks token_chunks : List Bytes)
    (list_carried : Carries
      (c.json.pin_sending.encode (RtcPinSendingResponse.file_list files))
      list_chunks)
    (tokens_carried : Carries
      (c.json.file_list.encode (RtcFileListResponse.tokens (issue_tokens cr.new_token wanted)))
      token_chunks) where
  abbrev joint_nonce : Bytes
  joint_nonce = remote_nonce ++ cr.local_nonce

  pub receive_task_receives :
      (k : ℕ) (rest : List DataChannelMessage) (io : Io)
      → receive_task c cr (record io {
        inbox =
            nonce_text c remote_nonce
            ∷ token_message c key joint_nonce
            ∷ (map binary list_chunks ++ delimiter ∷ rest);
        outbox = [];
        capacity = suc (suc (beyond token_chunks (suc k)));
        listening = true;
      })
        ≡ receive_files c.json.header c.json.encode_response
            (issue_tokens cr.new_token wanted)
            (sizes_of files)
            rest
            none
            (record io {
              inbox = rest;
              outbox =
                  nonce_text c cr.local_nonce
                  ∷ accepted_message c cr.signing_key joint_nonce
                  ∷ (map binary token_chunks ++ delimiter ∷ []);
              capacity = k;
              listening = true;
              statuses = io.statuses ++ RtcStatus.connected ∷ [];
              offered = some files;
            })
  unfolding receive_task serve_files offer_files select_files receive_selected
  receive_task_receives k rest io =
      let sent = nonce_text c cr.local_nonce ∷ accepted_message c cr.signing_key joint_nonce ∷ [] in
      let authenticated = record io { capacity = beyond token_chunks (suc k); outbox = sent } in
      rw
        (
          receiver_authenticated c cr key remote_nonce sender_valid receiver_valid expects no_pin
              (beyond token_chunks (suc k)) (map binary list_chunks ++ delimiter ∷ rest)
              (record io { outbox = []; listening = true }),
          receiver_negotiated c cr key remote_nonce sender_valid receiver_valid expects no_pin files
              list_chunks list_carried rest authenticated,
          takes,
          chosen,
          tokens_carried.sends k (record authenticated {
            inbox = rest;
            listening = true;
            statuses = io.statuses ++ RtcStatus.connected ∷ [];
            offered = some files;
          }),
        )
        refl
