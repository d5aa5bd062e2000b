-- ===== src/Bridge/Connect/Reports.antt =====
-- What an app is told of a connection to the signaling server.
use magic_share.Base.{
  ℕ, ◌-◌, ◌^◌, ◌<◌, ◌≤◌, ◌≡◌, refl, ap, sym, ◌∙◌, true, String, List, map, Result, ok, All,
  >>=-eq-ok, arith, leb,
}
use magic_share.Crypto.{Bytes, Text, Base64, Ed25519}
use magic_share.Crypto.Token.{
  Overflow, panics, wraps, ret, generate_token_timestamp, to_verifying_key, verify_token_timestamp,
}
use magic_share.Crypto.Token.Roundtrip.{verify_timestamp-generate, fresh}
use magic_share.Signaling.{ClientInfo, ClientInfoWithoutId, WsServerMessage, WsServerSdpMessage}
use magic_share.Signaling.Client.{Callbacks, Event}
use magic_share.Signaling.Client.Forwards.{messages, IsHeard, listener_lives}
use magic_share.Signaling.Connect.{Connecting, connected}
use magic_share.Bridge.Connect.{
  ProposingClientInfo, Ended, returned, sign, with_token, relay, connect_signed, connect_with,
  connect, start_listener,
}

module _ (b64 : Base64) (sha256 : Bytes → Bytes) (ed : Ed25519) (spell : Text → String) where
  signed-token :
      (key : ed.SigningKey) (made : ℕ) (info : ProposingClientInfo) (signed : ClientInfoWithoutId)
      → sign b64 sha256 ed spell key (ok made) info ≡ ok signed
      → (token : Text) × (generate_token_timestamp b64 sha256 ed key (ok made) ≡ ok token)
        × (signed.token ≡ spell token)
  unfolding sign
  signed-token key made info signed h =
      let (token, p, q) = >>=-eq-ok (generate_token_timestamp b64 sha256 ed key (ok made)) _ h in
      let same : with_token b64 sha256 ed spell info token ≡ signed = cc in
      (token, p, ap (λ (c : ClientInfoWithoutId). c.token) (sym same))

  fresh-later :
      (key : ed.SigningKey) (mode : Overflow) (made now : ℕ)
      → made ≤ now
      → fresh b64 sha256 ed key mode now made ≡ ret (leb (now - made) 3600)
  fresh-later key panics made now later = ground arith
  fresh-later key wraps made now later = ground arith

  module _ (cbs : Callbacks) (parse_private_key : Text → Result ed.SigningKey)
      (connecting : ClientInfoWithoutId → Connecting)
      (meanwhile : List WsServerMessage → List (Event cbs)) where
    abbrev pub attempt : ProposingClientInfo → Result ℕ → Text → Ended
    attempt = connect b64 sha256 ed spell cbs parse_private_key connecting meanwhile

    -- If the key is read, the information is signed at a time that fits an u64, the socket is
    -- greeted, no callback panics and the app keeps listening: the app is handed a connection, and
    -- its sink is given exactly what the server sends, in order and without an error. The
    -- information that the server gets carries a token which verifies under this key, from then on
    -- and for an hour, and no longer.
    pub connect_reports :
        (info : ProposingClientInfo) (made : ℕ) (private_key : Text) (key : ed.SigningKey)
        (signed : ClientInfoWithoutId) (client : ClientInfo) (rx : List WsServerMessage)
        → parse_private_key private_key ≡ ok key
        → sign b64 sha256 ed spell key (ok made) info ≡ ok signed
        → connecting signed ≡ connected client rx
        → ((callback : cbs.AnswerCallback) (sdp : WsServerSdpMessage)
            → cbs.returns callback sdp ≡ true)
        → messages cbs (meanwhile rx) ≡ rx
        → All (IsHeard cbs) (meanwhile rx)
        → made < 2 ^ 64
        → (attempt info (ok made) private_key ≡ returned true (map ok rx))
          × (token : Text) × (signed.token ≡ spell token)
          × ((mode : Overflow) (now : ℕ)
              → made ≤ now
              → verify_token_timestamp b64 sha256 mode (to_verifying_key ed key) token (ok now)
                ≡ ret (leb (now - made) 3600))
    unfolding connect connect_with connect_signed relay
    connect_reports info made private_key key signed client rx parsed h opened always same heard
          fits =
        let (token, made_token, carried) = signed-token key made info signed h in
        (
          rw (parsed, h, opened)
              (ap (λ l. returned true (map ok l))
                ((listener_lives cbs always (meanwhile rx) (start_listener b64 sha256 ed spell cbs)
                    heard refl refl).1
                  ∙ same)),
          token,
          carried,
          λ mode now later.
              verify_timestamp-generate b64 sha256 ed key mode made now token fits made_token
              ∙ fresh-later key mode made now later,
        )
