-- ===== src/Rtc/Pin.antt =====
-- `verify_pin` and `handle_pin`: one peer asks for a PIN, the other supplies it.
pub mod Verify
pub mod Verdict
pub mod Keeps
mod Examples
use magic_share.Base.{
  ℕ, zero, suc, ◌+◌, ◌%◌, Bool, true, false, ◌||◌, String, Option, none, some, List, [], ◌∷◌,
  number_eq, list_eq, ◌==◌, ltb, leb, if◌then◌else◌, Result,
}
use magic_share.Exec.{Exec, pure, fail, ◌>>=◌, ◌>>◌}
use magic_share.Rtc.{Bytes, DataChannelMessage, text}
use magic_share.Rtc.Chunks.{receive_string_from_chunks}
use magic_share.Rtc.Io.{Io, Codec, send, status, ignore, recv, or_fail, RtcStatus}

abbrev pub Pin : Type 0
Pin = List ℕ

pub record PinConfig : Type 0 where
  pub pin : Pin
  pub max_tries : ℕ

pub data VerifyPinResult : Type 0 where
  pin_required too_many_attempts : VerifyPinResult

module _ (json : Codec Pin) where
  parse_pin : Option DataChannelMessage → Exec Io Pin
  parse_pin none = fail "Failed to receive pin"
  parse_pin (some msg) = or_fail (json.decode msg.payload) "invalid PIN message"

  module _ (cfg : PinConfig) (send_result : VerifyPinResult → Exec Io (Unit {0})) where
    give_up : Exec Io (Unit {0})
    give_up =
        ignore (send_result VerifyPinResult.too_many_attempts)
        >> status RtcStatus.too_many_attempts
        >> fail "Too many requests"

    notice : Bool → Exec Io (Unit {0})
    notice true = send_result VerifyPinResult.pin_required
    notice false = pure tt

    -- A round either ends the loop or counts one try, up to `max_tries`.
    pub verify_loop : ℕ → Pin → ℕ → Bool → Exec Io (Unit {0})
    unfolding give_up notice parse_pin
    verify_loop zero remote_pin pin_try initial = fail "out of fuel"
    verify_loop (suc fuel) remote_pin pin_try initial =
        if remote_pin == cfg.pin
        then pure tt
        else if leb cfg.max_tries pin_try
        then give_up
        else (notice (initial || ltb 0 pin_try)
            >> (recv >>= parse_pin >>= λ pin. verify_loop fuel pin ((pin_try + 1) % 256) false))

    pub verify_pin : Bool → Exec Io (Unit {0})
    unfolding verify_loop
    verify_pin send_initial_notice =
        status RtcStatus.pin_required >> verify_loop (suc cfg.max_tries) [] 0 send_initial_notice

pub data ChallengePinResult (A : Type 0) : Type 0 where
  ok : A → ChallengePinResult A
  pin_required : ChallengePinResult A
  too_many_attempts : ChallengePinResult A
  parse_error : String → ChallengePinResult A

module _ (json : Codec Pin) {A : Type 0} (parse_response : Bytes → ChallengePinResult A) where
  expect_string : Option DataChannelMessage → Exec Io Bytes
  expect_string none = fail "Failed to receive initial message"
  expect_string (some msg) =
      if msg.is_string then pure msg.payload else fail "Expected string message"

  receive_response : Bool → Exec Io Bytes
  unfolding expect_string
  receive_response true io =
      let (bytes, rest) = receive_string_from_chunks io.inbox in
      (Result.ok bytes, record io { inbox = rest })
  receive_response false io = (recv >>= expect_string) io

  -- The user's answers to the requests for a PIN: `none` where a request is dropped, and the end
  -- of the list where nobody takes requests any more.
  pub handle_pin : Bool → List (Option Pin) → Exec Io A
  unfolding receive_response
  handle_pin receive_in_chunks [] =
      status RtcStatus.pin_required >> fail "Failed to send PIN request"
  handle_pin receive_in_chunks (none ∷ answers) =
      status RtcStatus.pin_required >> fail "PIN required but not provided"
  handle_pin receive_in_chunks (some pin ∷ answers) =
      let again = handle_pin receive_in_chunks answers in
      status RtcStatus.pin_required
      >> send (text (json.encode pin))
      >> (receive_response receive_in_chunks >>= λ bytes. elim (parse_response bytes) [
        | ChallengePinResult.ok result ↦ pure result
        | ChallengePinResult.pin_required ↦ again
        | ChallengePinResult.too_many_attempts ↦
            status RtcStatus.too_many_attempts >> fail "Too many requests"
        | ChallengePinResult.parse_error e ↦ fail e
      ])
