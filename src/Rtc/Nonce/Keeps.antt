-- ===== src/Rtc/Nonce/Keeps.antt =====
-- The exchange of nonces shows the app nothing.
use magic_share.Base.{◌≡◌, ◌∙◌, refl, ◌++◌, String, Option, some, none, Result, ok, err}
use magic_share.Exec.{Exec, pure, fail, ◌>>=◌, ◌>>◌}
use magic_share.Exec.Keeps.{Keeps, Keeps-bind, Keeps-then, Keeps-if}
use magic_share.Crypto.{Base64, validate_nonce}
use magic_share.Rtc.{Bytes, DataChannelMessage}
use magic_share.Rtc.Io.{Io, Text, Codec, send, recv, or_fail}
use magic_share.Rtc.Io.Keeps.{shown, send-Keeps, recv-Keeps, or_fail-Keeps}
use magic_share.Rtc.Nonce.{
  relabel, nonce_message, check_nonce, read_nonce, receive_nonce, send_nonce, sender_nonce,
  receiver_nonce,
}

relabelled :
    {A : Type 0} (e : String) (r : Result A) (io : Io) → shown (relabel e (r, io)).1 ≡ shown io
relabelled e (ok a) io = refl
relabelled e (err f) io = refl

pub relabel-Keeps :
    {A : Type 0} (e : String) (m : Exec Io A) → Keeps shown m → Keeps shown (λ io. relabel e (m io))
relabel-Keeps e m h io = relabelled e (m io).0 (m io).1 ∙ h io

module _ (json : Codec Text) (b64 : Base64) where
  check-Keeps : (b : Bytes) → Keeps shown (check_nonce json b64 b)
  unfolding check_nonce
  check-Keeps b =
      Keeps-if shown (validate_nonce b) (pure b) (fail "Invalid remote nonce") (λ s. refl)
        (λ s. refl)

  read-Keeps : (got : Option DataChannelMessage) → Keeps shown (read_nonce json b64 got)
  unfolding read_nonce
  read-Keeps none = λ s. refl
  read-Keeps (some msg) =
      let decode = λ (nonce : Text).
        or_fail (b64.decode nonce) "Failed to decode remote nonce" >>= check_nonce json b64 in
      let parse = or_fail (json.decode msg.payload) "invalid nonce message" in
      Keeps-if shown msg.is_string (parse >>= decode) (fail "Expected string message")
        (Keeps-bind shown parse decode
          (or_fail-Keeps (json.decode msg.payload) "invalid nonce message")
          (λ nonce.
            Keeps-bind shown (or_fail (b64.decode nonce) "Failed to decode remote nonce")
              (check_nonce json b64)
              (or_fail-Keeps (b64.decode nonce) "Failed to decode remote nonce") check-Keeps))
        (λ s. refl)

  receive-Keeps : Keeps shown (receive_nonce json b64)
  unfolding receive_nonce
  receive-Keeps = Keeps-bind shown recv (read_nonce json b64) recv-Keeps read-Keeps

  send_nonce-Keeps : (b : Bytes) → Keeps shown (send_nonce json b64 b)
  unfolding send_nonce
  send_nonce-Keeps b =
      relabel-Keeps "Failed to send nonce" (send (nonce_message json b64 b))
        (send-Keeps (nonce_message json b64 b))

  pub sender_nonce-Keeps : (b : Bytes) → Keeps shown (sender_nonce json b64 b)
  unfolding sender_nonce
  sender_nonce-Keeps b =
      let append = λ (remote : Bytes). pure {S = Io} (b ++ remote) in
      Keeps-then shown (send_nonce json b64 b) (receive_nonce json b64 >>= append)
        (send_nonce-Keeps b)
        (Keeps-bind shown (receive_nonce json b64) append receive-Keeps (λ r s. refl))

  pub receiver_nonce-Keeps : (b : Bytes) → Keeps shown (receiver_nonce json b64 b)
  unfolding receiver_nonce
  receiver_nonce-Keeps b =
      let answer = λ (remote : Bytes). send_nonce json b64 b >> pure (remote ++ b) in
      Keeps-bind shown (receive_nonce json b64) answer receive-Keeps (λ remote.
        Keeps-then shown (send_nonce json b64 b) (pure (remote ++ b)) (send_nonce-Keeps b)
          (λ s. refl))
