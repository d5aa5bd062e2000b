-- ===== src/Rtc.antt =====
-- core/src/webrtc/webrtc.rs: what two peers say to each other over a data channel.
pub mod Chunks
pub mod Io
pub mod Pin
pub mod Transfer
pub mod Nonce
pub mod Messages
pub mod Session
use magic_share.Base.{Bool, true, false, ◌&&◌, leb, length, List, [], ◌∷◌, ℕ}

abbrev pub Bytes : Type 0
Bytes = List ℕ

pub record DataChannelMessage : Type 0 where
  pub is_string : Bool
  pub payload : Bytes

abbrev pub text : Bytes → DataChannelMessage
text b = record { is_string = true; payload = b }

abbrev pub binary : Bytes → DataChannelMessage
binary b = record { is_string = false; payload = b }

-- The message that `send_delimiter` sends.
abbrev pub delimiter : DataChannelMessage
delimiter = text (b'0' ∷ [])

abbrev pub is_delimiter : DataChannelMessage → Bool
is_delimiter msg = msg.is_string && leb (length msg.payload) 1

-- `CHUNK_SIZE`: 16 KiB.
abbrev pub chunk_size : ℕ
chunk_size = 16384
