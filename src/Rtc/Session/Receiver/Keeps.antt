-- ===== src/Rtc/Session/Receiver/Keeps.antt =====
-- Up to the file list, the receiving task shows its app nothing but statuses.
use magic_share.Base.{refl, Bool, true, false, Option, some, none, List}
use magic_share.Exec.{Exec, pure, fail, ◌>>◌}
use magic_share.Exec.Keeps.{Keeps, Keeps-bind, Keeps-then}
use magic_share.Crypto.Token.{
  Run, ret, panic, VerifyingTokenKey, verify_token_nonce, generate_token_nonce,
}
use magic_share.Rtc.{Bytes, text}
use magic_share.Rtc.Io.{Io, Text, FileDto, send, status, or_fail, RtcStatus}
use magic_share.Rtc.Io.Keeps.{shown, send-Keeps, status-Keeps, or_fail-Keeps}
use magic_share.Rtc.Messages.{RtcTokenResponse, RtcPinReceivingResponse, RtcPinSendingResponse}
use magic_share.Rtc.Nonce.{receiver_nonce}
use magic_share.Rtc.Nonce.Keeps.{relabel-Keeps, receiver_nonce-Keeps}
use magic_share.Rtc.Pin.{PinConfig, VerifyPinResult, verify_pin}
use magic_share.Rtc.Pin.Keeps.{verify_pin-Keeps, handle_pin-Keeps}
use magic_share.Rtc.Session.{Crates, receive_text, receive_whole}
use magic_share.Rtc.Session.Keeps.{receive_text-Keeps, receive_whole-Keeps}
use magic_share.Rtc.Session.Receiver.{
  ReceiverConfig, receive_token, refuse_token, check_expected, send_token_response, token_response,
  send_pin_result, challenge, parse_pin_sending, answer_sender, receive_file_list,
  receiver_authenticate, receiver_negotiate,
}

module _ (c : Crates) (cfg : ReceiverConfig c) where
  refuse-Keeps : (r : Run Bool) → Keeps shown (refuse_token c cfg r)
  unfolding refuse_token
  refuse-Keeps (ret true) = λ s. refl
  refuse-Keeps (ret false) =
      let refusal = text (c.json.token_response.encode RtcTokenResponse.invalid_signature) in
      Keeps-then shown (send refusal) (fail "Invalid token signature or nonce") (send-Keeps refusal)
        (λ s. refl)
  refuse-Keeps panic = λ s. refl

  check-Keeps :
      (key : Option VerifyingTokenKey) (token : Text) (nonce : Bytes)
      → Keeps shown (check_expected c cfg key token nonce)
  unfolding check_expected
  check-Keeps none token nonce = λ s. refl
  check-Keeps (some key) token nonce =
      refuse-Keeps (verify_token_nonce c.b64 c.sha256 key token nonce)

  response-Keeps : (nonce : Bytes) → Keeps shown (send_token_response c cfg nonce)
  unfolding send_token_response
  response-Keeps nonce =
      let msg = text (
        c.json.token_response.encode (
          token_response c cfg cfg.pin
            (generate_token_nonce c.b64 c.sha256 c.ed cfg.signing_key nonce))) in
      relabel-Keeps "Failed to send token" (send msg) (send-Keeps msg)

  token-Keeps : Keeps shown (receive_token c cfg)
  unfolding receive_token
  token-Keeps =
      Keeps-bind shown (receive_text "Failed to receive token") _
        (receive_text-Keeps "Failed to receive token")
        (λ b. or_fail-Keeps (c.json.token_request.decode b) "invalid token message")

  abbrev pub respond : Bytes → Text → Exec Io (Bytes × Text)
  respond nonce token =
      check_expected c cfg cfg.expecting_public_key token nonce
      >> send_token_response c cfg nonce
      >> pure (nonce, token)

  respond-Keeps : (nonce : Bytes) (token : Text) → Keeps shown (respond nonce token)
  respond-Keeps nonce token =
      let check = check_expected c cfg cfg.expecting_public_key token nonce in
      Keeps-then shown (check >> send_token_response c cfg nonce) (pure (nonce, token))
        (Keeps-then shown check (send_token_response c cfg nonce)
          (check-Keeps cfg.expecting_public_key token nonce) (response-Keeps nonce))
        (λ s. refl)

  pub authenticate-Keeps : Keeps shown (receiver_authenticate c cfg)
  unfolding receiver_authenticate
  authenticate-Keeps =
      Keeps-bind shown (receiver_nonce c.json.nonce c.b64 cfg.local_nonce) _
        (receiver_nonce-Keeps c.json.nonce c.b64 cfg.local_nonce)
        (λ nonce.
          Keeps-bind shown (receive_token c cfg) (respond nonce) token-Keeps (respond-Keeps nonce))

  result-Keeps : (r : VerifyPinResult) → Keeps shown (send_pin_result c cfg r)
  unfolding send_pin_result
  result-Keeps VerifyPinResult.pin_required =
      send-Keeps (text (c.json.pin_receiving.encode RtcPinReceivingResponse.pin_required))
  result-Keeps VerifyPinResult.too_many_attempts =
      send-Keeps (text (c.json.pin_receiving.encode RtcPinReceivingResponse.too_many_attempts))

  challenge-Keeps : (pin : Option PinConfig) → Keeps shown (challenge c cfg pin)
  unfolding challenge
  challenge-Keeps none = λ s. refl
  challenge-Keeps (some pin) =
      let passed = text (c.json.pin_receiving.encode RtcPinReceivingResponse.passed) in
      Keeps-then shown (verify_pin c.json.pin pin (send_pin_result c cfg) false) (send passed)
        (verify_pin-Keeps c.json.pin pin (send_pin_result c cfg) result-Keeps false)
        (send-Keeps passed)

  answer-Keeps : (r : RtcPinSendingResponse) → Keeps shown (answer_sender c cfg r)
  unfolding answer_sender
  answer-Keeps (RtcPinSendingResponse.file_list files) = λ s. refl
  answer-Keeps RtcPinSendingResponse.pin_required =
      handle_pin-Keeps c.json.pin (parse_pin_sending c cfg) true cfg.pin_answers
  answer-Keeps RtcPinSendingResponse.too_many_attempts =
      status-Keeps (RtcStatus.error "Unexpected TooManyAttempts response")

  list-Keeps : Keeps shown (receive_file_list c cfg)
  unfolding receive_file_list
  list-Keeps = Keeps-bind shown receive_whole _ receive_whole-Keeps (λ b.
      Keeps-bind shown
        (or_fail (c.json.pin_sending.decode b) "Failed to deserialize file list response")
        (answer_sender c cfg)
        (or_fail-Keeps (c.json.pin_sending.decode b) "Failed to deserialize file list response")
        answer-Keeps)

  pub negotiate-Keeps : Keeps shown (receiver_negotiate c cfg)
  unfolding receiver_negotiate
  negotiate-Keeps =
      let connected = λ (files : List FileDto). status RtcStatus.connected >> pure files in
      Keeps-bind shown (challenge c cfg cfg.pin >> receive_file_list c cfg) connected
        (Keeps-then shown (challenge c cfg cfg.pin) (receive_file_list c cfg)
          (challenge-Keeps cfg.pin) list-Keeps)
        (λ files.
          Keeps-then shown (status RtcStatus.connected) (pure files)
            (status-Keeps RtcStatus.connected) (λ s. refl))
