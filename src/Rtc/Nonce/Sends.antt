-- ===== src/Rtc/Nonce/Sends.antt =====
-- The sender puts one message on the channel to exchange nonces.
use magic_share.Base.{◌++◌, String, Option, some, none, Result, ok, err}
use magic_share.Exec.{Exec, pure, fail, ◌>>=◌}
use magic_share.Crypto.{Base64, validate_nonce}
use magic_share.Rtc.{Bytes, DataChannelMessage}
use magic_share.Rtc.Io.{Io, Text, Codec, send, recv, or_fail}
use magic_share.Rtc.Io.Sends.{
  Grows, Sends, Grows-none, Sends-bind, Sends-then, Sends-if, Sends-pure, send-Sends, recv-Sends,
  or_fail-Sends,
}
use magic_share.Rtc.Nonce.{
  relabel, nonce_message, check_nonce, read_nonce, receive_nonce, send_nonce, sender_nonce,
}

relabelled :
    {A : Type 0} (e : String) (r : Result A) (io w : Io)
    → Grows 1 io w
    → Grows 1 io (relabel e (r, w)).1
relabelled e (ok a) io w h = h
relabelled e (err f) io w h = h

pub relabel-Sends :
    {A : Type 0} (e : String) (m : Exec Io A) → Sends 1 m → Sends 1 (λ io. relabel e (m io))
relabel-Sends e m h io = relabelled e (m io).0 io (m io).1 (h io)

module _ (json : Codec Text) (b64 : Base64) where
  check-Sends : (b : Bytes) → Sends 0 (check_nonce json b64 b)
  unfolding check_nonce
  check-Sends b =
      Sends-if 0 (validate_nonce b) (pure b) (fail "Invalid remote nonce") (Grows-none 0)
        (Grows-none 0)

  read-Sends : (got : Option DataChannelMessage) → Sends 0 (read_nonce json b64 got)
  unfolding read_nonce
  read-Sends none = Grows-none 0
  read-Sends (some msg) =
      let decode = λ (nonce : Text).
        or_fail (b64.decode nonce) "Failed to decode remote nonce" >>= check_nonce json b64 in
      let parse = or_fail (json.decode msg.payload) "invalid nonce message" in
      Sends-if 0 msg.is_string (parse >>= decode) (fail "Expected string message")
        (Sends-bind 0 0 parse decode
          (or_fail-Sends (json.decode msg.payload) "invalid nonce message")
          (λ nonce.
            Sends-bind 0 0 (or_fail (b64.decode nonce) "Failed to decode remote nonce")
              (check_nonce json b64)
              (or_fail-Sends (b64.decode nonce) "Failed to decode remote nonce") check-Sends))
        (Grows-none 0)

  pub sender_nonce-Sends : (b : Bytes) → Sends 1 (sender_nonce json b64 b)
  unfolding sender_nonce receive_nonce send_nonce
  sender_nonce-Sends b =
      let append = λ (remote : Bytes). pure {S = Io} (b ++ remote) in
      Sends-then 1 0 (send_nonce json b64 b) (receive_nonce json b64 >>= append)
        (relabel-Sends "Failed to send nonce" (send (nonce_message json b64 b))
          (send-Sends (nonce_message json b64 b)))
        (Sends-bind 0 0 (receive_nonce json b64) append
          (Sends-bind 0 0 recv (read_nonce json b64) recv-Sends read-Sends)
          (λ r. Sends-pure (b ++ r)))
