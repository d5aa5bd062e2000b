-- ===== src/Rtc/Session/Sender/Guard.antt =====
-- What has happened by the time the sending task sends more than its nonce and its token.
use mathlib.Core.Path.{subst}
use magic_share.Base.{
  ◌≡◌, refl, ap, sym, ◌∙◌, List, ◌∷◌, ◌⊎◌, inl, inr, ◌++◌, String, Bool, true, false, Option, some,
  none, Result, ok, err,
}
use magic_share.Exec.{Exec, continue, pure, fail, ◌>>=◌, ◌>>◌}
use magic_share.Exec.Keeps.{bind-eq-ok}
use magic_share.Crypto.Token.{
  Run, ret, panic, VerifyingTokenKey, verify_token_nonce, generate_token_nonce,
}
use magic_share.Crypto.Token.Sound.{Accepted, verify_nonce_sound}
use magic_share.Rtc.{Bytes, DataChannelMessage, text}
use magic_share.Rtc.Io.{Io, Text, send, recv}
use magic_share.Rtc.Io.Sends.{
  Grows, Sends, Grows-none, Sends-bind, Sends-then, Sends-if, Sends-pure, send-Sends, recv-Sends,
  or_fail-Sends,
}
use magic_share.Rtc.Messages.{RtcTokenResponse}
use magic_share.Rtc.Nonce.{sender_nonce}
use magic_share.Rtc.Nonce.Taken.{Brings, sender_nonce-Opened, relabel-arrived}
use magic_share.Rtc.Io.Keeps.{inbox-send}
use magic_share.Rtc.Session.Taken.{read-eq-ok}
use magic_share.Rtc.Nonce.Sends.{relabel-Sends, sender_nonce-Sends}
use magic_share.Rtc.Session.{
  Crates, decide, expect_text, receive_text, verify_expected, verify_token,
}
use magic_share.Rtc.Session.Sender.{
  SenderConfig, send_token, receive_token_response, check_token_response, sender_authenticate,
  sender_negotiate, send_selected, send_task,
}

decide-Sends : (r : Run Bool) (e : String) → Sends 0 (decide r e)
decide-Sends (ret true) e = Grows-none 0
decide-Sends (ret false) e = Grows-none 0
decide-Sends panic e = Grows-none 0

decide-eq-ok :
    (r : Run Bool) (e : String) (io : Io) {u : Unit {0}} → (decide r e io).0 ≡ ok u → r ≡ ret true
decide-eq-ok (ret true) e io h = refl
decide-eq-ok (ret false) e io h = cc
decide-eq-ok panic e io h = cc

expect-Sends : (e : String) (msg : Option DataChannelMessage) → Sends 0 (expect_text e msg)
unfolding expect_text
expect-Sends e none = Grows-none 0
expect-Sends e (some msg) =
    Sends-if 0 msg.is_string (pure msg.payload) (fail "Expected string message") (Grows-none 0)
      (Grows-none 0)

module _ (c : Crates) where
  expected-Sends :
      (key : Option VerifyingTokenKey) (token : Text) (nonce : Bytes)
      → Sends 0 (verify_expected c key token nonce)
  unfolding verify_expected verify_token
  expected-Sends none token nonce = Grows-none 0
  expected-Sends (some key) token nonce =
      decide-Sends (verify_token_nonce c.b64 c.sha256 key token nonce)
        "Invalid token signature or nonce"

  expected-eq-ok :
      (expected : Option VerifyingTokenKey) (key : VerifyingTokenKey) (token : Text) (nonce : Bytes)
      (io : Io) {u : Unit {0}}
      → expected ≡ some key
      → (verify_expected c expected token nonce io).0 ≡ ok u
      → verify_token_nonce c.b64 c.sha256 key token nonce ≡ ret true
  unfolding verify_expected verify_token
  expected-eq-ok none key token nonce io e h = cc
  expected-eq-ok (some k) key token nonce io e h =
      let same : k ≡ key = cc in
      rw same at (
        decide-eq-ok (verify_token_nonce c.b64 c.sha256 k token nonce)
          "Invalid token signature or nonce" io h)

-- The token in a response that accepts the sender's.
abbrev pub token_of : RtcTokenResponse → Option Text
token_of (RtcTokenResponse.accepted token) = some token
token_of (RtcTokenResponse.pin_required token) = some token
token_of RtcTokenResponse.invalid_signature = none

module _ (c : Crates) (cfg : SenderConfig c) where
  check-Sends :
      (nonce : Bytes) (r : RtcTokenResponse) → Sends 0 (check_token_response c cfg nonce r)
  unfolding check_token_response
  check-Sends nonce (RtcTokenResponse.accepted token) =
      Sends-then 0 0 (verify_expected c cfg.expecting_public_key token nonce) (pure token)
        (expected-Sends c cfg.expecting_public_key token nonce) (Sends-pure token)
  check-Sends nonce (RtcTokenResponse.pin_required token) =
      Sends-then 0 0 (verify_expected c cfg.expecting_public_key token nonce) (pure token)
        (expected-Sends c cfg.expecting_public_key token nonce) (Sends-pure token)
  check-Sends nonce RtcTokenResponse.invalid_signature = Grows-none 0

  response-Sends : Sends 0 (receive_token_response c cfg)
  unfolding receive_token_response receive_text
  response-Sends =
      Sends-bind 0 0 (receive_text "Failed to receive token response") _
        (Sends-bind 0 0 recv (expect_text "Failed to receive token response") recv-Sends
          (expect-Sends "Failed to receive token response"))
        (λ b. or_fail-Sends (c.json.token_response.decode b) "invalid token response")

  abbrev checked : Bytes → RtcTokenResponse → Exec Io (Bytes × Text × RtcTokenResponse)
  checked nonce response =
      check_token_response c cfg nonce response >>= λ token. pure (nonce, token, response)

  authenticate-Sends : Sends 2 (sender_authenticate c cfg)
  unfolding sender_authenticate send_token
  authenticate-Sends =
      Sends-bind 1 1 (sender_nonce c.json.nonce c.b64 cfg.local_nonce) _
        (sender_nonce-Sends c.json.nonce c.b64 cfg.local_nonce)
        (λ nonce.
          let msg = text (
            c.json.token_request.encode
              (generate_token_nonce c.b64 c.sha256 c.ed cfg.signing_key nonce)) in
          Sends-then 1 0 (send_token c cfg nonce) (receive_token_response c cfg >>= checked nonce)
            (relabel-Sends "Failed to send token" (send msg) (send-Sends msg))
            (Sends-bind 0 0 (receive_token_response c cfg) (checked nonce) response-Sends (λ r.
              Sends-bind 0 0 (check_token_response c cfg nonce r) _ (check-Sends nonce r)
                (λ token. Grows-none 0))))

  check-eq-ok :
      (key : VerifyingTokenKey) (nonce : Bytes) (r : RtcTokenResponse) (io : Io) {t : Text}
      → cfg.expecting_public_key ≡ some key
      → (check_token_response c cfg nonce r io).0 ≡ ok t
      → (token : Text) × (token_of r ≡ some token)
        × (verify_token_nonce c.b64 c.sha256 key token nonce ≡ ret true)
  unfolding check_token_response
  check-eq-ok key nonce (RtcTokenResponse.accepted token) io e h =
      let (_, a, _) =
        bind-eq-ok (verify_expected c cfg.expecting_public_key token nonce) (λ _. pure token) io
          h in
      (token, refl, expected-eq-ok c cfg.expecting_public_key key token nonce io e a)
  check-eq-ok key nonce (RtcTokenResponse.pin_required token) io e h =
      let (_, a, _) =
        bind-eq-ok (verify_expected c cfg.expecting_public_key token nonce) (λ _. pure token) io
          h in
      (token, refl, expected-eq-ok c cfg.expecting_public_key key token nonce io e a)
  check-eq-ok key nonce RtcTokenResponse.invalid_signature io e h = cc

  -- The first two messages that arrive are the receiver's nonce and a response with a token, and
  -- the key signed this token for the two nonces.
  abbrev pub Signed : VerifyingTokenKey → List DataChannelMessage → Type 0
  Signed key inbox =
      (first second : DataChannelMessage) × (rest : List DataChannelMessage) × (remote : Bytes)
      × (response : RtcTokenResponse) × (token : Text) × (inbox ≡ first ∷ second ∷ rest)
      × Brings c.json.nonce c.b64 first remote
      × (c.json.token_response.decode second.payload ≡ some response)
      × (token_of response ≡ some token)
      × Accepted c.b64 c.sha256 key token (cfg.local_nonce ++ remote)

  inbox-send_token : (nonce : Bytes) (io : Io) → (send_token c cfg nonce io).1.inbox ≡ io.inbox
  unfolding send_token
  inbox-send_token nonce io =
      let msg = text (
        c.json.token_request.encode
          (generate_token_nonce c.b64 c.sha256 c.ed cfg.signing_key nonce)) in
      relabel-arrived "Failed to send token" (send msg io).0 (send msg io).1 ∙ inbox-send msg io

  authenticate_sound :
      (key : VerifyingTokenKey) (io : Io) (v : Bytes × Text × RtcTokenResponse)
      → cfg.expecting_public_key ≡ some key
      → (sender_authenticate c cfg io).0 ≡ ok v
      → Signed key io.inbox
  unfolding sender_authenticate receive_token_response
  authenticate_sound key io v expects h =
      let first = sender_nonce c.json.nonce c.b64 cfg.local_nonce in
      let (nonce, a, h1) =
        bind-eq-ok first (λ n. send_token c cfg n >> (receive_token_response c cfg >>= checked n))
          io h in
      let (_, _, h2) =
        bind-eq-ok (send_token c cfg nonce) (λ _. receive_token_response c cfg >>= checked nonce)
          (first io).1 h1 in
      let w = (send_token c cfg nonce (first io).1).1 in
      let (r, t, h3) = bind-eq-ok (receive_token_response c cfg) (checked nonce) w h2 in
      let w' = (receive_token_response c cfg w).1 in
      let (_, b, _) =
        bind-eq-ok (check_token_response c cfg nonce r) (λ t. pure (nonce, t, r)) w' h3 in
      let (token, its, verified) = check-eq-ok key nonce r w' expects b in
      let (message, others, remote, i, brings, own, left) =
        sender_nonce-Opened c.json.nonce c.b64 cfg.local_nonce nonce io a in
      let (second, rest, j, decoded) =
        read-eq-ok c.json.token_response.decode "Failed to receive token response"
          "invalid token response" w t in
      (
        message,
        second,
        rest,
        remote,
        r,
        token,
        i ∙ ap (message ∷◌) (sym left ∙ sym (inbox-send_token nonce (first io).1) ∙ j),
        brings,
        decoded,
        its,
        subst (λ (n : Bytes). Accepted c.b64 c.sha256 key token n) own
            (verify_nonce_sound c.b64 c.sha256 key token nonce verified),
      )

  guarded :
      (key : VerifyingTokenKey) (io w : Io) (got : Result (Bytes × Text × RtcTokenResponse))
      → (sender_authenticate c cfg io).0 ≡ got
      → cfg.expecting_public_key ≡ some key
      → Grows 2 io w
      → Grows 2 io (continue got (λ v. sender_negotiate c cfg v >>= send_selected c cfg) w).1
        ⊎ Signed key io.inbox
  guarded key io w (ok v) e expects h = inr (authenticate_sound key io v expects e)
  guarded key io w (err f) e expects h = inl h

  -- Where a key is expected, the sending task puts at most two messages on the channel, unless the
  -- first two messages that arrive are a nonce and a response which accepts the sender's token, and
  -- this key signed the token in this response for the sender's nonce followed by that one. This
  -- holds whatever arrives and fails.
  pub sent_authenticated :
      (key : VerifyingTokenKey) (io : Io)
      → cfg.expecting_public_key ≡ some key
      → Grows 2 io (send_task c cfg io).1 ⊎ Signed key io.inbox
  unfolding send_task
  sent_authenticated key io expects =
      guarded key io (sender_authenticate c cfg io).1 (sender_authenticate c cfg io).0 refl expects
        (authenticate-Sends io)
