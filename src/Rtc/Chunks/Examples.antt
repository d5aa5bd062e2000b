-- ===== src/Rtc/Chunks/Examples.antt =====
-- The theorems on chunks at short texts.
use magic_share.Base.{◌≡◌, List, [], ◌∷◌, ◌++◌, concat, codes, ok}
use magic_share.Exec.{pure, ◌>>=◌, fold}
use magic_share.Rtc.{Bytes, DataChannelMessage, chunk_size, delimiter}
use magic_share.Rtc.Chunks.{process_in_chunks, send_string_in_chunks, receive_string_from_chunks}
use magic_share.Rtc.Chunks.Emit.{Chunking, process_in_chunks-fold}
use magic_share.Rtc.Chunks.Roundtrip.{send_chunk, receive-send_string}

process_in_chunks-fold_example :
    (cs : List Bytes) × (concat cs ≡ codes "abc")
    × Chunking chunk_size cs
    × (process_in_chunks tt (codes "a" ∷ codes "bc" ∷ []) send_chunk
        ≡ (fold send_chunk tt cs >>= λ _. pure tt))
process_in_chunks-fold_example = process_in_chunks-fold tt (codes "a" ∷ codes "bc" ∷ []) send_chunk

receive-send_string_example :
    (wire : List DataChannelMessage) × (send_string_in_chunks tt (codes "{}") send_chunk []
      ≡ (ok tt, wire))
    × (receive_string_from_chunks (wire ++ delimiter ∷ []) ≡ (codes "{}", []))
receive-send_string_example = receive-send_string (codes "{}") (codes "0") [] []
