-- ===== src/Rtc/Session/Keeps.antt =====
-- The steps that both peers take show the app nothing.
use magic_share.Base.{refl, Bool, true, false, String, Option, some, none, [], ◌∷◌}
use magic_share.Exec.{pure, fail}
use magic_share.Exec.Keeps.{Keeps, Keeps-bind, Keeps-then, Keeps-if}
use magic_share.Crypto.Token.{Run, ret, panic, VerifyingTokenKey, verify_token_nonce}
use magic_share.Rtc.{Bytes, DataChannelMessage, binary, delimiter}
use magic_share.Rtc.Chunks.{send_string_in_chunks}
use magic_share.Rtc.Chunks.Roundtrip.{send_string_as_stream}
use magic_share.Rtc.Io.{Text, send, recv}
use magic_share.Rtc.Io.Keeps.{shown, send-Keeps, recv-Keeps, process-Keeps}
use magic_share.Rtc.Transfer.{send_piece}
use magic_share.Rtc.Session.{
  Crates, decide, expect_text, receive_text, send_whole, receive_whole, verify_expected,
  verify_token,
}

pub decide-Keeps : (r : Run Bool) (e : String) → Keeps shown (decide r e)
decide-Keeps (ret true) e = λ s. refl
decide-Keeps (ret false) e = λ s. refl
decide-Keeps panic e = λ s. refl

expect-Keeps : (e : String) (msg : Option DataChannelMessage) → Keeps shown (expect_text e msg)
unfolding expect_text
expect-Keeps e none = λ s. refl
expect-Keeps e (some msg) =
    Keeps-if shown msg.is_string (pure msg.payload) (fail "Expected string message") (λ s. refl)
      (λ s. refl)

pub receive_text-Keeps : (e : String) → Keeps shown (receive_text e)
unfolding receive_text
receive_text-Keeps e = Keeps-bind shown recv (expect_text e) recv-Keeps (expect-Keeps e)

string-Keeps : (string : Bytes) → Keeps shown (send_string_in_chunks tt string send_piece)
string-Keeps string = rw (send_string_as_stream tt string send_piece) (
    process-Keeps tt (string ∷ []) send_piece
      (λ u b. Keeps-then shown (send (binary b)) (pure u) (send-Keeps (binary b)) (λ s. refl)))

pub send_whole-Keeps : (string : Bytes) → Keeps shown (send_whole string)
unfolding send_whole
send_whole-Keeps string =
    Keeps-then shown (send_string_in_chunks tt string send_piece) (send delimiter)
      (string-Keeps string) (send-Keeps delimiter)

pub receive_whole-Keeps : Keeps shown receive_whole
unfolding receive_whole
receive_whole-Keeps = λ s. refl

module _ (c : Crates) where
  pub verify_expected-Keeps :
      (key : Option VerifyingTokenKey) (token : Text) (nonce : Bytes)
      → Keeps shown (verify_expected c key token nonce)
  unfolding verify_expected verify_token
  verify_expected-Keeps none token nonce = λ s. refl
  verify_expected-Keeps (some key) token nonce =
      decide-Keeps (verify_token_nonce c.b64 c.sha256 key token nonce)
        "Invalid token signature or nonce"
