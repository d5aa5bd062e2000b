-- ===== src/Rtc/Pin/Keeps.antt =====
-- The PIN challenges show the app nothing but statuses.
use magic_share.Base.{
  ℕ, zero, suc, ◌+◌, ◌%◌, refl, Bool, true, false, ◌||◌, Option, some, none, List, [], ◌∷◌,
  number_eq, list_eq, ◌==◌, ltb, leb, if◌then◌else◌,
}
use magic_share.Exec.{Exec, pure, fail, ◌>>=◌, ◌>>◌}
use magic_share.Exec.Keeps.{Keeps, Keeps-bind, Keeps-then, Keeps-if}
use magic_share.Rtc.{Bytes, DataChannelMessage, text}
use magic_share.Rtc.Io.{Io, Codec, send, status, recv, RtcStatus, ignore}
use magic_share.Rtc.Io.Keeps.{shown, send-Keeps, status-Keeps, recv-Keeps, or_fail-Keeps}
use magic_share.Rtc.Pin.{
  Pin, PinConfig, VerifyPinResult, ChallengePinResult, parse_pin, give_up, notice, verify_loop,
  verify_pin, expect_string, receive_response, handle_pin,
}

module _ (json : Codec Pin) (cfg : PinConfig) (send_result : VerifyPinResult → Exec Io (Unit {0}))
    (h : (r : VerifyPinResult) → Keeps shown (send_result r)) where
  give_up-Keeps : Keeps shown (give_up json cfg send_result)
  unfolding give_up
  give_up-Keeps =
      Keeps-then shown
        (ignore (send_result VerifyPinResult.too_many_attempts)
          >> status RtcStatus.too_many_attempts)
        (fail "Too many requests")
        (Keeps-then shown (ignore (send_result VerifyPinResult.too_many_attempts))
          (status RtcStatus.too_many_attempts) (h VerifyPinResult.too_many_attempts)
          (status-Keeps RtcStatus.too_many_attempts))
        (λ s. refl)

  notice-Keeps : (b : Bool) → Keeps shown (notice json cfg send_result b)
  unfolding notice
  notice-Keeps true = h VerifyPinResult.pin_required
  notice-Keeps false = λ s. refl

  parse-Keeps : (msg : Option DataChannelMessage) → Keeps shown (parse_pin json msg)
  unfolding parse_pin
  parse-Keeps none = λ s. refl
  parse-Keeps (some msg) = or_fail-Keeps (json.decode msg.payload) "invalid PIN message"

  loop-Keeps :
      (fuel : ℕ) (before : Pin) (pin_try : ℕ) (initial : Bool)
      → Keeps shown (verify_loop json cfg send_result fuel before pin_try initial)
  unfolding verify_loop
  loop-Keeps zero before pin_try initial = λ s. refl
  loop-Keeps (suc fuel) before pin_try initial =
      let loop : Pin → Exec Io (Unit {0}) =
        λ pin. verify_loop json cfg send_result fuel pin ((pin_try + 1) % 256) false in
      let round : Exec Io (Unit {0}) = recv >>= parse_pin json >>= loop in
      let first = notice json cfg send_result (initial || ltb 0 pin_try) in
      Keeps-if shown (before == cfg.pin) (pure tt)
        (if leb cfg.max_tries pin_try then give_up json cfg send_result else (first >> round))
        (λ s. refl)
        (Keeps-if shown (leb cfg.max_tries pin_try) (give_up json cfg send_result) (first >> round)
          give_up-Keeps
          (Keeps-then shown first round (notice-Keeps (initial || ltb 0 pin_try)) (
            Keeps-bind shown (recv >>= parse_pin json) loop
              (Keeps-bind shown recv (parse_pin json) recv-Keeps parse-Keeps)
              (λ pin. loop-Keeps fuel pin ((pin_try + 1) % 256) false))))

  pub verify_pin-Keeps : (initial : Bool) → Keeps shown (verify_pin json cfg send_result initial)
  unfolding verify_pin
  verify_pin-Keeps initial =
      Keeps-then shown (status RtcStatus.pin_required)
        (verify_loop json cfg send_result (suc cfg.max_tries) [] 0 initial)
        (status-Keeps RtcStatus.pin_required) (loop-Keeps (suc cfg.max_tries) [] 0 initial)

module _ (json : Codec Pin) {A : Type 0} (parse_response : Bytes → ChallengePinResult A) where
  expect-Keeps :
      (msg : Option DataChannelMessage) → Keeps shown (expect_string json parse_response msg)
  unfolding expect_string
  expect-Keeps none = λ s. refl
  expect-Keeps (some msg) =
      Keeps-if shown msg.is_string (pure msg.payload) (fail "Expected string message") (λ s. refl)
        (λ s. refl)

  response-Keeps : (b : Bool) → Keeps shown (receive_response json parse_response b)
  unfolding receive_response
  response-Keeps true = λ s. refl
  response-Keeps false =
      Keeps-bind shown recv (expect_string json parse_response) recv-Keeps expect-Keeps

  abbrev answered : Exec Io A → ChallengePinResult A → Exec Io A
  answered again r = elim r [
    | ChallengePinResult.ok result ↦ pure result
    | ChallengePinResult.pin_required ↦ again
    | ChallengePinResult.too_many_attempts ↦
        status RtcStatus.too_many_attempts >> fail "Too many requests"
    | ChallengePinResult.parse_error e ↦ fail e
  ]

  answered-Keeps :
      (again : Exec Io A) (r : ChallengePinResult A)
      → Keeps shown again
      → Keeps shown (answered again r)
  answered-Keeps again (ChallengePinResult.ok result) h = λ s. refl
  answered-Keeps again ChallengePinResult.pin_required h = h
  answered-Keeps again ChallengePinResult.too_many_attempts h =
      Keeps-then shown (status RtcStatus.too_many_attempts) (fail "Too many requests")
        (status-Keeps RtcStatus.too_many_attempts) (λ s. refl)
  answered-Keeps again (ChallengePinResult.parse_error e) h = λ s. refl

  pub handle_pin-Keeps :
      (in_chunks : Bool) (answers : List (Option Pin))
      → Keeps shown (handle_pin json parse_response in_chunks answers)
  unfolding handle_pin
  handle_pin-Keeps in_chunks [] =
      Keeps-then shown (status RtcStatus.pin_required) (fail "Failed to send PIN request")
        (status-Keeps RtcStatus.pin_required) (λ s. refl)
  handle_pin-Keeps in_chunks (none ∷ answers) =
      Keeps-then shown (status RtcStatus.pin_required) (fail "PIN required but not provided")
        (status-Keeps RtcStatus.pin_required) (λ s. refl)
  handle_pin-Keeps in_chunks (some pin ∷ answers) =
      let again = handle_pin json parse_response in_chunks answers in
      Keeps-then shown (status RtcStatus.pin_required >> send (text (json.encode pin)))
        (receive_response json parse_response in_chunks >>= λ bytes.
          answered again (parse_response bytes))
        (Keeps-then shown (status RtcStatus.pin_required) (send (text (json.encode pin)))
          (status-Keeps RtcStatus.pin_required) (send-Keeps (text (json.encode pin))))
        (Keeps-bind shown (receive_response json parse_response in_chunks)
          (λ bytes. answered again (parse_response bytes)) (response-Keeps in_chunks)
          (λ bytes.
            answered-Keeps again (parse_response bytes) (handle_pin-Keeps in_chunks answers)))
