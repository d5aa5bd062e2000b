-- ===== src/Rtc/Nonce/Examples.antt =====
-- The theorems on nonces at two texts of 16 bytes and crates that write bytes as numbers above 46.
use magic_share.Base.{
  none, ◌+◌, ◌-◌, ◌≡◌, refl, ap, ap₂, ◌≢◌, some, [], ◌∷◌, map, ok, arith, codes, All, true,
}
use magic_share.Crypto.{Bytes, Base64, validate_nonce}
use magic_share.Rtc.{DataChannelMessage}
use magic_share.Rtc.Io.{Io, Text, Codec}
use magic_share.Rtc.Nonce.{nonce_message, receive_nonce, read_nonce, check_nonce}

lowered : (b : Bytes) → map (λ x. x - 50) (map (λ x. x + 50) b) ≡ b
lowered [] = refl
lowered (x ∷ b) = ap₂ ◌∷◌ (omega arith) (lowered b)

no_dot : (b : Bytes) → All (λ c. c ≢ b'.') (map (λ x. x + 50) b)
no_dot [] = tt
no_dot (x ∷ b) = (omega arith, no_dot b)

abbrev raised : Base64
raised = record {
  encode = map (λ x. x + 50);
  decode = λ t. some (map (λ x. x - 50) t);
  decode-encode = λ b. ap some (lowered b);
  encode-Plain = no_dot;
}

abbrev plain : Codec Text
plain = record { encode = λ t. t; decode = some; decode-encode = λ t. refl }

abbrev mine : Bytes
mine = codes "0123456789abcdef"

abbrev theirs : Bytes
theirs = codes "fedcba9876543210"

abbrev quiet_peer : Io
quiet_peer = record {
  inbox = [];
  outbox = [];
  statuses = [];
  capacity = 0;
  listening = true;
  errors = [];
  file_results = [];
  received = [];
  offered = none;
  selection = none;
  appetite = 0;
}

mine_valid : validate_nonce mine ≡ true
unfolding validate_nonce
mine_valid = refl

theirs_valid : validate_nonce theirs ≡ true
unfolding validate_nonce
theirs_valid = refl

abbrev from_sender : DataChannelMessage
from_sender = nonce_message plain raised mine

abbrev from_receiver : DataChannelMessage
from_receiver = nonce_message plain raised theirs

received : (receive_nonce plain raised (record quiet_peer { inbox = from_sender ∷ [] })).0 ≡ ok mine
unfolding receive_nonce read_nonce check_nonce validate_nonce
received = refl
