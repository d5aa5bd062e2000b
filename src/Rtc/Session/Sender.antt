-- ===== src/Rtc/Session/Sender.antt =====
-- The sending task of `send_offer`, from the opened channel to its end.
pub mod Agree
pub mod Guard
pub mod Turns
use magic_share.Base.{
  Bool, true, false, String, Option, none, some, List, [], ◌∷◌, map, if◌then◌else◌, Result, ok, err,
}
use magic_share.Exec.{Exec, pure, fail, ◌>>=◌, ◌>>◌}
use magic_share.Crypto.Token.{
  Run, ret, panic, verify_token_nonce, VerifyingTokenKey, generate_token_nonce,
  extract_signature_identifier,
}
use magic_share.Map.{HashMap}
use magic_share.Rtc.{Bytes, text}
use magic_share.Rtc.Io.{Io, Text, FileDto, RtcFile, RtcStatus, send, recv, status, ignore, or_fail}
use magic_share.Rtc.Messages.{
  RtcTokenResponse, RtcPinReceivingResponse, RtcPinSendingResponse, RtcFileListResponse,
  RtcPairResponse,
}
use magic_share.Rtc.Nonce.{sender_nonce, relabel}
use magic_share.Rtc.Pin.{
  Pin, PinConfig, VerifyPinResult, ChallengePinResult, verify_pin, handle_pin,
}
use magic_share.Rtc.Transfer.{send_all_files}
use magic_share.Rtc.Session.{
  Crates, lift, receive_text, send_whole, receive_whole, parse_public_key, verify_expected,
}

-- What the app gives to a session, and what its user answers.
pub record SenderConfig (c : Crates) : Type 0 where
  pub signing_key : c.ed.SigningKey
  pub expecting_public_key : Option VerifyingTokenKey
  pub pin : Option PinConfig
  pub files : List FileDto
  -- What `generate_nonce` returns.
  pub local_nonce : Bytes
  -- The answers to the requests for a PIN, as in `handle_pin`.
  pub pin_answers : List (Option Pin)
  -- The answer to a request to pair: `none` where nobody takes requests, `some none` where it is
  -- dropped.
  pub pair_answer : Option (Option Bool)
  -- Whether the app waits for the selected files, and the files that it then sends.
  pub waits_for_selection : Bool
  pub sending : List RtcFile

abbrev pub keys : HashMap Text Text → List Text
keys = map λ e. e.0

module _ (c : Crates) (cfg : SenderConfig c) where
  -- The token exchange; the result is the response.
  send_token : Bytes → Exec Io (Unit {0})
  send_token nonce io = relabel "Failed to send token" (
      send
        (text (
          c.json.token_request.encode
            (generate_token_nonce c.b64 c.sha256 c.ed cfg.signing_key nonce)))
        io)

  receive_token_response : Exec Io RtcTokenResponse
  receive_token_response = receive_text "Failed to receive token response" >>= λ bytes.
      or_fail (c.json.token_response.decode bytes) "invalid token response"

  -- The receiver's token, checked against the key that is expected.
  check_token_response : Bytes → RtcTokenResponse → Exec Io Text
  check_token_response nonce (RtcTokenResponse.accepted token) =
      verify_expected c cfg.expecting_public_key token nonce >> pure token
  check_token_response nonce (RtcTokenResponse.pin_required token) =
      verify_expected c cfg.expecting_public_key token nonce >> pure token
  check_token_response nonce RtcTokenResponse.invalid_signature =
      fail "Invalid token signature from receiving peer"

  parse_pin_receiving : Bytes → ChallengePinResult (Unit {0})
  parse_pin_receiving bytes = elim (c.json.pin_receiving.decode bytes) [
    | none ↦ ChallengePinResult.parse_error "Failed to parse pin response"
    | some r ↦ elim r [
      | RtcPinReceivingResponse.passed ↦ ChallengePinResult.ok tt
      | RtcPinReceivingResponse.pin_required ↦ ChallengePinResult.pin_required
      | RtcPinReceivingResponse.too_many_attempts ↦ ChallengePinResult.too_many_attempts
    ]
  ]

  -- The receiver's challenge, where its response asks for one.
  answer_challenge : RtcTokenResponse → Exec Io (Unit {0})
  unfolding parse_pin_receiving
  answer_challenge (RtcTokenResponse.pin_required token) =
      handle_pin c.json.pin parse_pin_receiving false cfg.pin_answers
  answer_challenge _ = pure tt

  send_pin_result : VerifyPinResult → Exec Io (Unit {0})
  send_pin_result VerifyPinResult.pin_required =
      send_whole (c.json.pin_sending.encode RtcPinSendingResponse.pin_required)
  send_pin_result VerifyPinResult.too_many_attempts =
      send_whole (c.json.pin_sending.encode RtcPinSendingResponse.too_many_attempts)

  -- The sender's challenge.
  challenge : Option PinConfig → Exec Io (Unit {0})
  unfolding send_pin_result
  challenge none = pure tt
  challenge (some pin) = verify_pin c.json.pin pin send_pin_result true

  -- The file list; a failure is told to the app.
  told : Result (Unit {0}) → Exec Io (Unit {0})
  told (ok u) = pure tt
  told (err e) = ignore (status (RtcStatus.error "Failed to send file list message")) >> fail e

  send_file_list : Exec Io (Unit {0})
  unfolding told
  send_file_list io =
      let (sent, io') =
        send_whole (c.json.pin_sending.encode (RtcPinSendingResponse.file_list cfg.files)) io in
      told sent io'

  receive_file_list_response : Exec Io RtcFileListResponse
  receive_file_list_response = receive_whole >>= λ bytes.
      or_fail (c.json.file_list.decode bytes) "Failed to deserialize file list response"

  end_with : String → Exec Io (Option (HashMap Text Text))
  end_with e = ignore (status (RtcStatus.error e)) >> fail e

  declined : Exec Io (Option (HashMap Text Text))
  declined = ignore (status RtcStatus.declined) >> pure none

  -- The user's answer to a request to pair goes to the receiver.
  send_pair_answer : Text → Option (Option Bool) → Exec Io (Unit {0})
  send_pair_answer public_key none = fail "Failed to send pair response"
  send_pair_answer public_key (some none) = fail "channel closed"
  send_pair_answer public_key (some (some true)) =
      send (text (c.json.pair.encode (RtcPairResponse.paired public_key)))
  send_pair_answer public_key (some (some false)) =
      send (text (c.json.pair.encode RtcPairResponse.pair_declined))

  -- A key that did not sign the receiver's token is reported and ends the session.
  check_pair_key : Run Bool → Exec Io (Unit {0})
  check_pair_key (ret true) = pure tt
  check_pair_key (ret false) =
      send (text (c.json.pair.encode RtcPairResponse.invalid_signature))
      >> fail "Invalid token signature or nonce"
  check_pair_key panic = fail "task panicked"

  pair : Text → Bytes → Text → Exec Io (Unit {0})
  unfolding check_pair_key send_pair_answer
  pair remote_token nonce public_key =
      or_fail (extract_signature_identifier remote_token) "Failed to extract signature identifier"
      >>= λ identifier. lift (parse_public_key c public_key identifier) >>= λ key.
          check_pair_key (verify_token_nonce c.b64 c.sha256 key remote_token nonce)
          >> send_pair_answer public_key cfg.pair_answer

  -- The answer behind a request to pair.
  paired_file_map : RtcFileListResponse → Exec Io (Option (HashMap Text Text))
  unfolding declined end_with
  paired_file_map (RtcFileListResponse.tokens files) = pure (some files)
  paired_file_map RtcFileListResponse.declined = declined
  paired_file_map RtcFileListResponse.invalid_signature =
      end_with "Invalid signature (not expected)"
  paired_file_map (RtcFileListResponse.pair key) = end_with "Unexpected pair response"

  file_map : Text → Bytes → RtcFileListResponse → Exec Io (Option (HashMap Text Text))
  unfolding pair paired_file_map receive_file_list_response
  file_map remote_token nonce (RtcFileListResponse.tokens files) = pure (some files)
  file_map remote_token nonce (RtcFileListResponse.pair public_key) =
      pair remote_token nonce public_key >> (receive_file_list_response >>= paired_file_map)
  file_map remote_token nonce RtcFileListResponse.declined = declined
  file_map remote_token nonce RtcFileListResponse.invalid_signature =
      end_with "Invalid signature (not expected)"

  -- The status beside a failure is never sent: the future that would send it is dropped.
  publish_selection : Bool → HashMap Text Text → Exec Io (Unit {0})
  publish_selection true files io = (ok tt, record io { selection = some (keys files) })
  publish_selection false files io = (err "Could not publish selection", io)

  -- Nonce and tokens: the session's nonce, and the receiver's token and response.
  pub sender_authenticate : Exec Io (Bytes × Text × RtcTokenResponse)
  unfolding send_token receive_token_response check_token_response
  sender_authenticate = sender_nonce c.json.nonce c.b64 cfg.local_nonce >>= λ nonce.
      send_token nonce
      >> (receive_token_response >>= λ response.
          check_token_response nonce response >>= λ token. pure (nonce, token, response))

  -- Both challenges, and the file list with the receiver's answer.
  pub sender_negotiate : Bytes × Text × RtcTokenResponse → Exec Io (Option (HashMap Text Text))
  unfolding answer_challenge challenge send_file_list receive_file_list_response file_map
  sender_negotiate (nonce, token, response) =
      answer_challenge response
      >> challenge cfg.pin
      >> status RtcStatus.connected
      >> send_file_list
      >> (receive_file_list_response >>= file_map token nonce)

  send_selected : Option (HashMap Text Text) → Exec Io (Unit {0})
  unfolding publish_selection
  send_selected none = pure tt
  send_selected (some files) =
      publish_selection cfg.waits_for_selection files
      >> send_all_files c.json.header files cfg.sending

  pub send_task : Exec Io (Unit {0})
  unfolding sender_authenticate sender_negotiate send_selected
  send_task = sender_authenticate >>= λ session. sender_negotiate session >>= send_selected
