-- ===== src/Rtc/Chunks.antt =====
-- Sending a stream of bytes in chunks, and joining the chunks of a text.
pub mod Emit
pub mod Roundtrip
mod Examples
use magic_share.Base.{
  ℕ, zero, suc, Bool, true, false, List, [], ◌∷◌, ◌++◌, leb, if◌then◌else◌, length, take, drop,
  Result, ok, err,
}
use magic_share.Exec.{Exec, pure, ◌>>=◌}
use magic_share.Rtc.{Bytes, DataChannelMessage, chunk_size}

module _ {S T : Type 0} (size : ℕ) (callback : T → Bytes → Exec S T) where
  -- The inner loop; every round but the last takes `size` bytes, so the length is fuel enough.
  drain : ℕ → T → Bytes → Exec S (T × Bytes)
  drain zero channel buffer = pure (channel, buffer)
  drain (suc fuel) channel buffer =
      if leb size (length buffer)
      then (callback channel (take size buffer) >>= λ channel'.
          drain fuel channel' (drop size buffer))
      else pure (channel, buffer)

  finish : T → Bytes → Exec S (Unit {0})
  finish channel [] = pure tt
  finish channel (b ∷ buffer) = callback channel (b ∷ buffer) >>= λ _. pure tt

  -- The outer loop, over what the receiver of the stream yields until it is closed.
  process : T → Bytes → List Bytes → Exec S (Unit {0})
  unfolding drain finish
  process channel buffer [] = finish channel buffer
  process channel buffer (data_in ∷ rx) =
      drain (length (buffer ++ data_in)) channel (buffer ++ data_in) >>= λ p. process p.0 p.1 rx

pub process_in_chunks : {S T : Type 0} → T → List Bytes → (T → Bytes → Exec S T) → Exec S (Unit {0})
unfolding process
process_in_chunks channel rx callback = process chunk_size callback channel [] rx

-- The text is the only item of the stream.
pub send_string_in_chunks : {S T : Type 0} → T → Bytes → (T → Bytes → Exec S T) → Exec S (Unit {0})
unfolding process_in_chunks
send_string_in_chunks channel string callback = process_in_chunks channel (string ∷ []) callback

-- The bytes up to the first text message, and the messages behind it.
join_chunks : Bytes → List DataChannelMessage → Bytes × List DataChannelMessage
join_chunks buffer [] = (buffer, [])
join_chunks buffer (msg ∷ rx) =
    let rest = join_chunks (buffer ++ msg.payload) rx in
    if msg.is_string then (buffer, rx) else rest

pub receive_string_from_chunks : List DataChannelMessage → Bytes × List DataChannelMessage
unfolding join_chunks
receive_string_from_chunks rx = join_chunks [] rx
