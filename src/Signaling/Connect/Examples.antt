-- ===== src/Signaling/Connect/Examples.antt =====
-- Greetings of a toy server: a text is one letter.
use magic_share.Base.{
  ◌≡◌, refl, List, [], ◌∷◌, ok, err, Result, codes, eqb, Bool, false, if◌then◌else◌,
}
use magic_share.Crypto.{Text}
use magic_share.Http.Examples.{shifted}
use magic_share.Signaling.{WsServerMessage, without_id}
use magic_share.Signaling.Client.Examples.{bob}
use magic_share.Signaling.Connect.{
  Wire, Frame, text, other, connected, panicked, waiting, connect, connect_info, read_frames, greet,
  parsed, read_on,
}

abbrev letter : Text → Result WsServerMessage
letter [] = err "EOF"
letter (c ∷ t) =
    if eqb c b'h'
    then ok (WsServerMessage.hello bob [])
    else if eqb c b'j'
    then ok (WsServerMessage.join bob)
    else err "expected value"

abbrev toy_wire : Wire
toy_wire = record { info_to_string = λ info. ok (codes "i"); from_str = letter; as_bytes = λ t. t }

abbrev yields : List Frame
yields = text (codes "j") ∷ other ∷ text (codes "Limit") ∷ text (codes "h") ∷ text (codes "h") ∷ []

greeted :
    connect toy_wire shifted 0
      (λ uri. ok record { frames = yields; closed = false })
      (codes "ws")
      (without_id bob)
    ≡ connected bob (WsServerMessage.join bob ∷ WsServerMessage.hello bob [] ∷ [])
unfolding read_on parsed greet connect connect_info read_frames
greeted = refl

-- Without a Hello, `connect` waits while the socket is open, and panics when it is closed.
unanswered :
    (closed : Bool)
    → connect toy_wire shifted 0
        (λ uri. ok record { frames = text (codes "j") ∷ []; closed = closed })
        (codes "ws")
        (without_id bob)
      ≡ (if closed then panicked else waiting)
unfolding read_on parsed greet connect connect_info read_frames
unanswered closed = refl

-- Two Joins before the Hello block the reader.
blocked :
    (closed : Bool)
    → connect toy_wire shifted 0
        (λ uri. ok record { frames = text (codes "j") ∷ yields; closed = closed })
        (codes "ws")
        (without_id bob)
      ≡ waiting
unfolding read_on parsed greet connect connect_info read_frames
blocked closed = refl
