-- ===== src/Rtc/Chunks/Roundtrip.antt =====
-- A text sent in chunks and closed by a delimiter is received whole.
use magic_share.Base.{
  ◌≡◌, refl, sym, ap, ◌∙◌, List, [], ◌∷◌, ◌++◌, append_assoc, append-nil, map, concat, Result, ok,
}
use magic_share.Exec.{Exec, pure, continue, fold}
use magic_share.Rtc.{Bytes, DataChannelMessage, text, binary}
use magic_share.Rtc.Chunks.{
  process_in_chunks, send_string_in_chunks, join_chunks, receive_string_from_chunks,
}
use magic_share.Rtc.Chunks.Emit.{process_in_chunks-fold}

-- The callback of both peers: `data_channel.send(&chunk).await?; Ok(data_channel)`, on a channel
-- that accepts every message.
pub send_chunk : Unit {0} → Bytes → Exec (List DataChannelMessage) (Unit {0})
send_chunk channel chunk sent = (ok channel, sent ++ binary chunk ∷ [])

fold-send_chunk :
    (cs : List Bytes) (sent : List DataChannelMessage)
    → fold send_chunk tt cs sent ≡ (ok tt, sent ++ map binary cs)
unfolding fold send_chunk
fold-send_chunk [] sent = ap (λ (l : List DataChannelMessage). (ok tt, l)) (sym (append-nil sent))
fold-send_chunk (c ∷ cs) sent =
    fold-send_chunk cs (sent ++ binary c ∷ [])
    ∙ ap (λ (l : List DataChannelMessage). (ok tt, l))
        (append_assoc sent (binary c ∷ []) (map binary cs))

join-map :
    (buffer : Bytes) (cs : List Bytes) (closing : Bytes) (rest : List DataChannelMessage)
    → join_chunks buffer (map binary cs ++ text closing ∷ rest) ≡ (buffer ++ concat cs, rest)
unfolding join_chunks
join-map buffer [] closing rest = ap (λ (l : Bytes). (l, rest)) (sym (append-nil buffer))
join-map buffer (c ∷ cs) closing rest =
    join-map (buffer ++ c) cs closing rest
    ∙ ap (λ (l : Bytes). (l, rest)) (append_assoc buffer c (concat cs))

-- The messages that a text becomes, followed by any text message, are received as the text, and
-- what comes behind them is left for later.
pub receive-send_string :
    (string closing : Bytes) (sent rest : List DataChannelMessage)
    → (wire : List DataChannelMessage) × (send_string_in_chunks tt string send_chunk sent
        ≡ (ok tt, sent ++ wire))
      × (receive_string_from_chunks (wire ++ text closing ∷ rest) ≡ (string, rest))
unfolding send_string_in_chunks receive_string_from_chunks
receive-send_string string closing sent rest =
    let (cs, whole, _, run) = process_in_chunks-fold tt (string ∷ []) send_chunk in
    (
      map binary cs,
      ap (λ (m : Exec (List DataChannelMessage) (Unit {0})). m sent) run
          ∙ ap
              (λ (p : Result (Unit {0}) × List DataChannelMessage).
                continue {B = Unit {0}} p.0 (λ _. pure tt) p.1)
              (fold-send_chunk cs sent),
      join-map [] cs closing rest ∙ ap (λ (l : Bytes). (l, rest)) (whole ∙ append-nil string),
    )

pub receive-map :
    (cs : List Bytes) (closing : Bytes) (rest : List DataChannelMessage)
    → receive_string_from_chunks (map binary cs ++ text closing ∷ rest) ≡ (concat cs, rest)
unfolding receive_string_from_chunks
receive-map = join-map []

-- A text is a stream of one item.
pub send_string_as_stream :
    {S T : Type 0} (channel : T) (string : Bytes) (callback : T → Bytes → Exec S T)
    → send_string_in_chunks channel string callback
      ≡ process_in_chunks channel (string ∷ []) callback
unfolding send_string_in_chunks
send_string_as_stream channel string callback = refl

-- A stream that ends at once is an empty text.
pub receive-nothing : receive_string_from_chunks [] ≡ ([], [])
unfolding receive_string_from_chunks join_chunks
receive-nothing = refl
