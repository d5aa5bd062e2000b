-- ===== src/Bridge/Receive/Files.antt =====
-- A received file on its way through `RTCFileReceiver`.
use magic_share.Base.{
  ◌≡◌, refl, ap, sym, ◌∙◌, some, List, [], ◌∷◌, ◌++◌, append_assoc, append-nil, ok, err, concat,
}
use magic_share.Bridge.{Bytes, buffer_size}
use magic_share.Bridge.Batches.{Batched, send_each, buffer_receiver-Batched}
use magic_share.Bridge.Receive.{RtcFileReceiver, add, buffered, receive}

send_each-add : (bs sink : List Bytes) → (send_each add bs sink).1 ≡ sink ++ bs
send_each-add [] sink = sym (append-nil sink)
send_each-add (b ∷ bs) sink = send_each-add bs (sink ++ b ∷ []) ∙ append_assoc sink (b ∷ []) bs

-- The first call of `receive` gives the app all bytes of the file, in order, in messages of at
-- least 1 MiB each but the last, which is not empty, and returns. A further call fails and gives
-- the app nothing.
pub receive_gives :
    (f : RtcFileReceiver) (rx sink : List Bytes)
    → f.binary_rx ≡ some rx
    → let ((r, sink'), f') = receive f sink in
      (bs : List Bytes) × (sink' ≡ sink ++ bs)
      × (concat bs ≡ concat rx)
      × Batched buffer_size bs
      × (r ≡ ok tt)
      × ((receive f' sink').0 ≡ (err "File receiver listened to", sink'))
unfolding receive
receive_gives f rx sink here =
    let (bs, whole, batched, same) = buffer_receiver-Batched rx add in
    (
      bs,
      ap (λ o. (buffered o sink).1) here ∙ ap (λ m. (m sink).1) same ∙ send_each-add bs sink,
      whole,
      batched,
      ap (λ o. (buffered o sink).0) here,
      refl,
    )
