-- ===== src/Rtc/Session/Receiver.antt =====
-- The receiving task of `accept_offer`, from the opened channel to its end.
pub mod Agree
pub mod Keeps
pub mod Guard
pub mod Turns
pub mod EmptyPin
use magic_share.Base.{
  ℕ, Bool, true, false, String, Option, none, some, List, [], ◌∷◌, map, Result, ok, err,
}
use magic_share.Exec.{Exec, pure, fail, ◌>>=◌, ◌>>◌}
use magic_share.Crypto.Token.{
  Run, ret, panic, VerifyingTokenKey, generate_token_nonce, verify_token_nonce,
}
use magic_share.Map.{HashMap}
use magic_share.Rtc.{Bytes, text}
use magic_share.Rtc.Io.{Io, Text, FileDto, RtcStatus, send, status, ignore, or_fail}
use magic_share.Rtc.Messages.{
  RtcTokenResponse, RtcPinReceivingResponse, RtcPinSendingResponse, RtcFileListResponse,
}
use magic_share.Rtc.Nonce.{receiver_nonce, relabel}
use magic_share.Rtc.Pin.{
  Pin, PinConfig, VerifyPinResult, ChallengePinResult, verify_pin, handle_pin,
}
use magic_share.Rtc.Transfer.{FileSizes, receive_files}
use magic_share.Rtc.Session.{Crates, receive_text, send_whole, receive_whole}

-- What the app gives to a session, and what its user answers.
pub record ReceiverConfig (c : Crates) : Type 0 where
  pub signing_key : c.ed.SigningKey
  pub expecting_public_key : Option VerifyingTokenKey
  pub pin : Option PinConfig
  -- What `generate_nonce` returns.
  pub local_nonce : Bytes
  -- The answers to the requests for a PIN, as in `handle_pin`.
  pub pin_answers : List (Option Pin)
  -- Whether the app takes the file list.
  pub takes_files : Bool
  -- The user's choice: `none` where the app drops the channel, `some none` for a refusal.
  pub selected : Option (Option (List Text))
  -- The token that `Uuid::new_v4` returns for each file.
  pub new_token : Text → Text

abbrev pub issue_tokens : (Text → Text) → List Text → HashMap Text Text
issue_tokens new_token = map λ id. (id, new_token id)

-- `file_list.iter().find(|f| f.id == header.id)` reads these.
abbrev pub sizes_of : List FileDto → FileSizes
sizes_of = map λ f. (f.id, f.size)

module _ (c : Crates) (cfg : ReceiverConfig c) where
  receive_token : Exec Io Text
  receive_token = receive_text "Failed to receive token" >>= λ bytes.
      or_fail (c.json.token_request.decode bytes) "invalid token message"

  -- A token that the expected key did not sign is refused to the sender too.
  refuse_token : Run Bool → Exec Io (Unit {0})
  refuse_token (ret true) = pure tt
  refuse_token (ret false) =
      send (text (c.json.token_response.encode RtcTokenResponse.invalid_signature))
      >> fail "Invalid token signature or nonce"
  refuse_token panic = fail "task panicked"

  pub check_expected : Option VerifyingTokenKey → Text → Bytes → Exec Io (Unit {0})
  unfolding refuse_token
  check_expected none token nonce = pure tt
  check_expected (some key) token nonce =
      refuse_token (verify_token_nonce c.b64 c.sha256 key token nonce)

  token_response : Option PinConfig → Text → RtcTokenResponse
  token_response none token = RtcTokenResponse.accepted token
  token_response (some pin) token = RtcTokenResponse.pin_required token

  pub send_token_response : Bytes → Exec Io (Unit {0})
  unfolding token_response
  send_token_response nonce io = relabel "Failed to send token" (
      send
        (text (
          c.json.token_response.encode (
            token_response cfg.pin
              (generate_token_nonce c.b64 c.sha256 c.ed cfg.signing_key nonce))))
        io)

  pub send_pin_result : VerifyPinResult → Exec Io (Unit {0})
  send_pin_result VerifyPinResult.pin_required =
      send (text (c.json.pin_receiving.encode RtcPinReceivingResponse.pin_required))
  send_pin_result VerifyPinResult.too_many_attempts =
      send (text (c.json.pin_receiving.encode RtcPinReceivingResponse.too_many_attempts))

  -- The receiver's challenge.
  challenge : Option PinConfig → Exec Io (Unit {0})
  unfolding send_pin_result
  challenge none = pure tt
  challenge (some pin) =
      verify_pin c.json.pin pin send_pin_result false
      >> send (text (c.json.pin_receiving.encode RtcPinReceivingResponse.passed))

  parse_pin_sending : Bytes → ChallengePinResult (List FileDto)
  parse_pin_sending bytes = elim (c.json.pin_sending.decode bytes) [
    | none ↦ ChallengePinResult.parse_error "Failed to parse pin response"
    | some r ↦ elim r [
      | RtcPinSendingResponse.file_list files ↦ ChallengePinResult.ok files
      | RtcPinSendingResponse.pin_required ↦ ChallengePinResult.pin_required
      | RtcPinSendingResponse.too_many_attempts ↦ ChallengePinResult.too_many_attempts
    ]
  ]

  -- The sender's challenge, where it makes one, or its file list.
  answer_sender : RtcPinSendingResponse → Exec Io (List FileDto)
  unfolding parse_pin_sending
  answer_sender (RtcPinSendingResponse.file_list files) = pure files
  answer_sender RtcPinSendingResponse.pin_required =
      handle_pin c.json.pin parse_pin_sending true cfg.pin_answers
  answer_sender RtcPinSendingResponse.too_many_attempts =
      ignore (status (RtcStatus.error "Unexpected TooManyAttempts response"))
      >> fail "Unexpected TooManyAttempts response"

  receive_file_list : Exec Io (List FileDto)
  unfolding answer_sender
  receive_file_list = receive_whole >>= λ bytes.
      or_fail (c.json.pin_sending.decode bytes) "Failed to deserialize file list response"
      >>= answer_sender

  offer_files : Bool → List FileDto → Exec Io (Unit {0})
  offer_files true files io = (ok tt, record io { offered = some files })
  offer_files false files io = (err "Failed to send file list", io)

  -- The tokens of the files that the user wants, and none at the end of the session.
  select_files : Option (Option (List Text)) → Exec Io (Option (HashMap Text Text))
  select_files none = pure none
  select_files (some none) =
      send_whole (c.json.file_list.encode RtcFileListResponse.declined) >> pure none
  select_files (some (some files)) =
      send_whole
        (c.json.file_list.encode (RtcFileListResponse.tokens (issue_tokens cfg.new_token files)))
      >> pure (some (issue_tokens cfg.new_token files))

  -- Nonce and tokens: the session's nonce and the sender's token.
  pub receiver_authenticate : Exec Io (Bytes × Text)
  unfolding receive_token check_expected send_token_response
  receiver_authenticate = receiver_nonce c.json.nonce c.b64 cfg.local_nonce >>= λ nonce.
      receive_token >>= λ token.
      check_expected cfg.expecting_public_key token nonce
      >> send_token_response nonce
      >> pure (nonce, token)

  -- Both challenges, up to the sender's file list.
  pub receiver_negotiate : Exec Io (List FileDto)
  unfolding challenge receive_file_list
  receiver_negotiate =
      challenge cfg.pin >> receive_file_list >>= λ files. status RtcStatus.connected >> pure files

  receive_selected : List FileDto → Option (HashMap Text Text) → Exec Io (Unit {0})
  receive_selected files none io = (ok tt, io)
  receive_selected files (some tokens) io =
      receive_files c.json.header c.json.encode_response tokens (sizes_of files) io.inbox none io

  pub serve_files : List FileDto → Exec Io (Unit {0})
  unfolding offer_files select_files receive_selected
  serve_files files =
      offer_files cfg.takes_files files >> (select_files cfg.selected >>= receive_selected files)

  pub receive_task : Exec Io (Unit {0})
  unfolding receiver_authenticate receiver_negotiate serve_files
  receive_task = receiver_authenticate >>= λ _. receiver_negotiate >>= serve_files
