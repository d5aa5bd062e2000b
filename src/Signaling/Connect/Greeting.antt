-- ===== src/Signaling/Connect/Greeting.antt =====
-- A client's `connect` at a socket that opens.
use magic_share.Base.{ℕ, ◌≡◌, refl, none, Result, ok}
use magic_share.Crypto.{Text, Base64}
use magic_share.Signaling.{ClientInfoWithoutId}
use magic_share.Signaling.Connect.{
  Wire, Socket, connect, connect_info, read_frames, parsed, uri_with, greet,
}

pub connect_opened :
    (wire : Wire) (b64 : Base64) (late : ℕ) (connect_async : Text → Result Socket) (uri : Text)
    (info : ClientInfoWithoutId) (t : Text) (socket : Socket)
    → wire.info_to_string info ≡ ok t
    → connect_async (uri_with wire b64 uri (b64.encode (wire.as_bytes t))) ≡ ok socket
    → connect wire b64 late connect_async uri info
      ≡ greet late socket.closed none (parsed wire b64 socket.frames)
unfolding connect connect_info read_frames
connect_opened wire b64 late connect_async uri info t socket written opened =
    rw (written, opened) refl
