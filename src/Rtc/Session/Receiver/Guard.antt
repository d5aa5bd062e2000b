-- ===== src/Rtc/Session/Receiver/Guard.antt =====
-- What has happened by the time the receiving app is shown anything.
use mathlib.Core.Path.{subst}
use magic_share.Base.{
  ℕ, suc, ◌<◌, ◌≡◌, refl, ap, sym, ◌∙◌, ◌⊎◌, inl, inr, Bool, true, false, Option, some, none, List,
  [], ◌∷◌, ◌++◌, ok,
}
use magic_share.Exec.{pure, fail, ◌>>=◌, ◌>>◌}
use magic_share.Exec.Keeps.{changed_by_second, bind-eq-ok}
use magic_share.Crypto.Token.{Run, ret, panic, VerifyingTokenKey, verify_token_nonce}
use magic_share.Crypto.Token.Sound.{Accepted, verify_nonce_sound}
use magic_share.Rtc.{Bytes, DataChannelMessage, text}
use magic_share.Rtc.Io.{Io, Text, FileDto, send, status, RtcStatus}
use magic_share.Rtc.Io.Keeps.{inbox-send, shown}
use magic_share.Rtc.Messages.{RtcTokenResponse, RtcPinReceivingResponse}
use magic_share.Rtc.Nonce.{receiver_nonce}
use magic_share.Rtc.Nonce.Taken.{Brings, receiver_nonce-Opened}
use magic_share.Rtc.Session.Taken.{read-eq-ok}
use magic_share.Rtc.Pin.{PinConfig, VerifyPinResult, verify_pin}
use magic_share.Rtc.Pin.Verify.{Passed, verify_pin_sound}
use magic_share.Rtc.Session.{Crates}
use magic_share.Rtc.Session.Receiver.Keeps.{respond, authenticate-Keeps, negotiate-Keeps}
use magic_share.Rtc.Session.Receiver.{
  ReceiverConfig, receive_token, refuse_token, check_expected, send_token_response, send_pin_result,
  challenge, receive_file_list, receiver_authenticate, receiver_negotiate, serve_files,
  receive_task,
}

module _ (c : Crates) (cfg : ReceiverConfig c) where
  refuse-eq-ok :
      (r : Run Bool) (io : Io) {u : Unit {0}} → (refuse_token c cfg r io).0 ≡ ok u → r ≡ ret true
  unfolding refuse_token
  refuse-eq-ok (ret true) io h = refl
  refuse-eq-ok (ret false) io h =
      let (_, _, e) =
        bind-eq-ok (send (text (c.json.token_response.encode RtcTokenResponse.invalid_signature)))
          (λ _. fail {A = Unit {0}} "Invalid token signature or nonce") io h in
      cc
  refuse-eq-ok panic io h = cc

  check-eq-ok :
      (expected : Option VerifyingTokenKey) (key : VerifyingTokenKey) (token : Text) (nonce : Bytes)
      (io : Io) {u : Unit {0}}
      → expected ≡ some key
      → (check_expected c cfg expected token nonce io).0 ≡ ok u
      → verify_token_nonce c.b64 c.sha256 key token nonce ≡ ret true
  unfolding check_expected
  check-eq-ok none key token nonce io e h = cc
  check-eq-ok (some k) key token nonce io e h =
      let same : k ≡ key = cc in
      rw same at (refuse-eq-ok (verify_token_nonce c.b64 c.sha256 k token nonce) io h)

  -- The first two messages that arrive are the sender's nonce and a token, and the key signed this
  -- token for the two nonces.
  abbrev pub Signed : VerifyingTokenKey → List DataChannelMessage → Type 0
  Signed key inbox =
      (first second : DataChannelMessage) × (rest : List DataChannelMessage) × (remote : Bytes)
      × (token : Text) × (inbox ≡ first ∷ second ∷ rest)
      × Brings c.json.nonce c.b64 first remote
      × (c.json.token_request.decode second.payload ≡ some token)
      × Accepted c.b64 c.sha256 key token (remote ++ cfg.local_nonce)

  authenticate_sound :
      (key : VerifyingTokenKey) (io : Io) (v : Bytes × Text)
      → cfg.expecting_public_key ≡ some key
      → (receiver_authenticate c cfg io).0 ≡ ok v
      → Signed key io.inbox
  unfolding receiver_authenticate receive_token
  authenticate_sound key io v expects h =
      let first = receiver_nonce c.json.nonce c.b64 cfg.local_nonce in
      let (nonce, a, h1) = bind-eq-ok first (λ n. receive_token c cfg >>= respond c cfg n) io h in
      let (token, t, h2) = bind-eq-ok (receive_token c cfg) (respond c cfg nonce) (first io).1 h1 in
      let w = (receive_token c cfg (first io).1).1 in
      let check = check_expected c cfg cfg.expecting_public_key token nonce in
      let (_, b, h3) =
        bind-eq-ok (check >> send_token_response c cfg nonce) (λ _. pure (nonce, token)) w h2 in
      let (_, d, h4) = bind-eq-ok check (λ _. send_token_response c cfg nonce) w b in
      let (message, others, remote, i, brings, own, left) =
        receiver_nonce-Opened c.json.nonce c.b64 cfg.local_nonce nonce io a in
      let (second, rest, j, decoded) =
        read-eq-ok c.json.token_request.decode "Failed to receive token" "invalid token message"
          (first io).1 t in
      (
        message,
        second,
        rest,
        remote,
        token,
        i ∙ ap (message ∷◌) (sym left ∙ j),
        brings,
        decoded,
        subst (λ (n : Bytes). Accepted c.b64 c.sha256 key token n) own
            (verify_nonce_sound c.b64 c.sha256 key token nonce
              (check-eq-ok cfg.expecting_public_key key token nonce w expects d)),
      )

  -- Where a key is expected, the receiving task offers its app no file list unless the first two
  -- messages that arrive are a nonce and a token, and this key signed this token for that nonce
  -- followed by the receiver's own. This holds whatever arrives, and however sends and the app's
  -- channels fail.
  pub offered_authenticated :
      (key : VerifyingTokenKey) (io : Io)
      → cfg.expecting_public_key ≡ some key
      → ((receive_task c cfg io).1.offered ≡ io.offered) ⊎ Signed key io.inbox
  unfolding receive_task
  offered_authenticated key io expects =
      elim (changed_by_second shown (receiver_authenticate c cfg)
        (λ _. receiver_negotiate c cfg >>= serve_files c cfg) io (authenticate-Keeps c cfg)) [
          | inl same ↦ inl (ap (λ (p : Option (List FileDto) × Option (List Text)). p.0) same)
          | inr (v, returned, _) ↦ inr (authenticate_sound key io v expects returned)
        ]

  pub result_quiet :
      (r : VerifyPinResult) (io : Io) → (send_pin_result c cfg r io).1.inbox ≡ io.inbox
  unfolding send_pin_result
  result_quiet VerifyPinResult.pin_required io =
      inbox-send (text (c.json.pin_receiving.encode RtcPinReceivingResponse.pin_required)) io
  result_quiet VerifyPinResult.too_many_attempts io =
      inbox-send (text (c.json.pin_receiving.encode RtcPinReceivingResponse.too_many_attempts)) io

  -- A result is sent where there is room for a message, and takes its place.
  pub result_takes_room :
      (r : VerifyPinResult) (io : Io) (k : ℕ)
      → io.capacity ≡ suc k
      → ((send_pin_result c cfg r io).0 ≡ ok tt) × ((send_pin_result c cfg r io).1.capacity ≡ k)
  unfolding send_pin_result
  result_takes_room VerifyPinResult.pin_required io k e = rw e (refl, refl)
  result_takes_room VerifyPinResult.too_many_attempts io k e = rw e (refl, refl)

  abbrev pub PinPassed : PinConfig → Io → Type 0
  PinPassed pin w =
      Passed c.json.pin pin (send_pin_result c cfg) result_quiet pin.max_tries [] w
        (verify_pin c.json.pin pin (send_pin_result c cfg) false w).1

  challenge-PinPassed :
      (asked : Option PinConfig) (pin : PinConfig) (w : Io) {u : Unit {0}}
      → asked ≡ some pin
      → pin.max_tries < 256
      → (challenge c cfg asked w).0 ≡ ok u
      → PinPassed pin w
  unfolding challenge
  challenge-PinPassed none pin w e fits h = cc
  challenge-PinPassed (some p) pin w e fits h =
      let (_, a, _) =
        bind-eq-ok (verify_pin c.json.pin p (send_pin_result c cfg) false)
          (λ _. send (text (c.json.pin_receiving.encode RtcPinReceivingResponse.passed))) w h in
      let same : p ≡ pin = cc in
      verify_pin_sound c.json.pin pin (send_pin_result c cfg) result_quiet false w fits
        (rw same at a)

  negotiate-PinPassed :
      (pin : PinConfig) (w : Io) (files : List FileDto)
      → cfg.pin ≡ some pin
      → pin.max_tries < 256
      → (receiver_negotiate c cfg w).0 ≡ ok files
      → PinPassed pin w
  unfolding receiver_negotiate
  negotiate-PinPassed pin w files e fits h =
      let (_, a, _) =
        bind-eq-ok (challenge c cfg cfg.pin >> receive_file_list c cfg)
          (λ l. status RtcStatus.connected >> pure l) w h in
      let (_, b, _) = bind-eq-ok (challenge c cfg cfg.pin) (λ _. receive_file_list c cfg) w a in
      challenge-PinPassed cfg.pin pin w e fits b

  -- Where a PIN is set, the receiving task offers its app no file list unless the sender, after
  -- the exchange of tokens, has supplied this PIN in one of the first `max_tries` messages (or the
  -- PIN is empty). This holds whatever arrives and fails, for a `max_tries` that fits its byte.
  pub offered_with_pin :
      (pin : PinConfig) (io : Io)
      → cfg.pin ≡ some pin
      → pin.max_tries < 256
      → ((receive_task c cfg io).1.offered ≡ io.offered)
        ⊎ PinPassed pin (receiver_authenticate c cfg io).1
  unfolding receive_task
  offered_with_pin pin io e fits =
      let later = λ (_ : Bytes × Text). receiver_negotiate c cfg >>= serve_files c cfg in
      let offer = λ (p : Option (List FileDto) × Option (List Text)). p.0 in
      let w = (receiver_authenticate c cfg io).1 in
      elim (changed_by_second shown (receiver_authenticate c cfg) later io
        (authenticate-Keeps c cfg)) [
          | inl same ↦ inl (ap offer same)
          | inr (v, _, run) ↦
              elim (changed_by_second shown (receiver_negotiate c cfg) (serve_files c cfg) w
                (negotiate-Keeps c cfg)) [
                  | inl same ↦ inl (rw run (ap offer (same ∙ authenticate-Keeps c cfg io)))
                  | inr (files, returned, _) ↦ inr (negotiate-PinPassed pin w files e fits returned)
                ]
        ]
