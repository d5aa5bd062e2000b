-- ===== src/Rtc/Nonce/Waits.antt =====
-- The nonce exchange where the other peer has not sent its nonce yet.
use magic_share.Base.{suc, ◌≡◌, refl, ℕ, [], ◌∷◌, ◌++◌, err}
use magic_share.Crypto.{Base64}
use magic_share.Rtc.{Bytes}
use magic_share.Rtc.Io.{Io, Text, Codec}
use magic_share.Rtc.Nonce.{nonce_message, sender_nonce, send_nonce, receive_nonce, read_nonce}

-- The sender does not wait with its own.
pub sender_nonce-first :
    (json : Codec Text) (b64 : Base64) (mine : Bytes) (k : ℕ) (io : Io)
    → sender_nonce json b64 mine (record io { inbox = []; capacity = suc k }) ≡ (
      err "Failed to receive nonce",
      record io {
        inbox = [];
        capacity = k;
        outbox = io.outbox ++ nonce_message json b64 mine ∷ [];
      },
    )
unfolding sender_nonce send_nonce receive_nonce read_nonce
sender_nonce-first json b64 mine k io = refl
