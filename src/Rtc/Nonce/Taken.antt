-- ===== src/Rtc/Nonce/Taken.antt =====
-- The exchange of nonces takes one message, in which the peer's nonce stands.
use magic_share.Base.{
  ◌≡◌, refl, sym, ap, ◌∙◌, true, String, Option, some, none, List, [], ◌∷◌, ◌++◌, Result, ok, err,
}
use magic_share.Exec.{pure, fail, ◌>>=◌, ◌>>◌}
use magic_share.Exec.Keeps.{Keeps, Keeps-bind, Keeps-if, bind-run}
use magic_share.Crypto.{Base64, validate_nonce}
use magic_share.Rtc.{Bytes, DataChannelMessage}
use magic_share.Rtc.Io.{Io, Text, Codec, send, recv, take_first, or_fail}
use magic_share.Rtc.Io.Keeps.{inbox-send}
use magic_share.Rtc.Nonce.{
  relabel, nonce_message, check_nonce, read_nonce, receive_nonce, send_nonce, sender_nonce,
  receiver_nonce, receive_nonce_sound,
}

abbrev arrived : Io → List DataChannelMessage
arrived io = io.inbox

pub or_fail-arrived : {A : Type 0} (o : Option A) (e : String) → Keeps arrived (or_fail o e)
or_fail-arrived none e io = refl
or_fail-arrived (some a) e io = refl

pub relabel-arrived :
    {A : Type 0} (e : String) (r : Result A) (io : Io) → (relabel e (r, io)).1.inbox ≡ io.inbox
relabel-arrived e (ok a) io = refl
relabel-arrived e (err f) io = refl

pub take-arrived :
    (io : Io) (inbox : List DataChannelMessage) {msg : DataChannelMessage}
    {rest : List DataChannelMessage}
    → inbox ≡ msg ∷ rest
    → (take_first io inbox).1.inbox ≡ rest
take-arrived io [] e = cc
take-arrived io (m ∷ l) e = cc

module _ (json : Codec Text) (b64 : Base64) where
  check-arrived : (b : Bytes) → Keeps arrived (check_nonce json b64 b)
  unfolding check_nonce
  check-arrived b =
      Keeps-if arrived (validate_nonce b) (pure b) (fail "Invalid remote nonce") (λ s. refl)
        (λ s. refl)

  read-arrived : (got : Option DataChannelMessage) → Keeps arrived (read_nonce json b64 got)
  unfolding read_nonce
  read-arrived none = λ s. refl
  read-arrived (some msg) =
      let decode = λ (nonce : Text).
        or_fail (b64.decode nonce) "Failed to decode remote nonce" >>= check_nonce json b64 in
      let parse = or_fail (json.decode msg.payload) "invalid nonce message" in
      Keeps-if arrived msg.is_string (parse >>= decode) (fail "Expected string message")
        (Keeps-bind arrived parse decode
          (or_fail-arrived (json.decode msg.payload) "invalid nonce message")
          (λ nonce.
            Keeps-bind arrived (or_fail (b64.decode nonce) "Failed to decode remote nonce")
              (check_nonce json b64)
              (or_fail-arrived (b64.decode nonce) "Failed to decode remote nonce") check-arrived))
        (λ s. refl)

  -- The first message holds the peer's nonce.
  abbrev pub Brings : DataChannelMessage → Bytes → Type 0
  Brings first remote =
      (nonce : Text) × (json.decode first.payload ≡ some nonce)
      × (b64.decode nonce ≡ some remote)
      × (validate_nonce remote ≡ true)

  receive_nonce-taken :
      (io : Io) (n : Bytes)
      → (receive_nonce json b64 io).0 ≡ ok n
      → (first : DataChannelMessage) × (rest : List DataChannelMessage) × (io.inbox ≡ first ∷ rest)
        × Brings first n
        × ((receive_nonce json b64 io).1.inbox ≡ rest)
  unfolding receive_nonce
  receive_nonce-taken io n h =
      let (msg, rest, nonce, e, s, d, f, v) = receive_nonce_sound json b64 io n h in
      let (got, a, run, _) = bind-run recv (read_nonce json b64) io h in
      (
        msg,
        rest,
        e,
        (nonce, d, f, v),
        ap (λ (p : Result Bytes × Io). p.1.inbox) run
            ∙ read-arrived got (recv io).1
            ∙ take-arrived io io.inbox e,
      )

  inbox-send_nonce : (b : Bytes) (io : Io) → (send_nonce json b64 b io).1.inbox ≡ io.inbox
  unfolding send_nonce
  inbox-send_nonce b io =
      let msg = nonce_message json b64 b in
      relabel-arrived "Failed to send nonce" (send msg io).0 (send msg io).1 ∙ inbox-send msg io

  -- The session's nonce is the peer's with one's own, and what follows is left.
  abbrev pub Opened : (Bytes → Bytes) → Bytes → Io → Io → Type 0
  Opened whole n io w =
      (first : DataChannelMessage) × (rest : List DataChannelMessage) × (remote : Bytes) × (io.inbox
        ≡ first ∷ rest)
      × Brings first remote
      × (n ≡ whole remote)
      × (w.inbox ≡ rest)

  pub receiver_nonce-Opened :
      (b n : Bytes) (io : Io)
      → (receiver_nonce json b64 b io).0 ≡ ok n
      → Opened (λ remote. remote ++ b) n io (receiver_nonce json b64 b io).1
  unfolding receiver_nonce
  receiver_nonce-Opened b n io h =
      let answer = λ (r : Bytes). send_nonce json b64 b >> pure (r ++ b) in
      let (remote, a, run, e) = bind-run (receive_nonce json b64) answer io h in
      let w = (receive_nonce json b64 io).1 in
      let (_, _, run', _) = bind-run (send_nonce json b64 b) (λ _. pure (remote ++ b)) w e in
      let (first, rest, i, brings, left) = receive_nonce-taken io remote a in
      let out : ok (remote ++ b) ≡ ok n =
        sym (ap (λ (p : Result Bytes × Io). p.0) (run ∙ run')) ∙ h in
      (
        first,
        rest,
        remote,
        i,
        brings,
        cc,
        ap (λ (p : Result Bytes × Io). p.1.inbox) (run ∙ run') ∙ inbox-send_nonce b w ∙ left,
      )

  pub sender_nonce-Opened :
      (b n : Bytes) (io : Io)
      → (sender_nonce json b64 b io).0 ≡ ok n
      → Opened (λ remote. b ++ remote) n io (sender_nonce json b64 b io).1
  unfolding sender_nonce
  sender_nonce-Opened b n io h =
      let answer = λ (r : Bytes). pure {S = Io} (b ++ r) in
      let (_, _, run, e) =
        bind-run (send_nonce json b64 b) (λ _. receive_nonce json b64 >>= answer) io h in
      let w = (send_nonce json b64 b io).1 in
      let (remote, a, run', _) = bind-run (receive_nonce json b64) answer w e in
      let (first, rest, i, brings, left) = receive_nonce-taken w remote a in
      let out : ok (b ++ remote) ≡ ok n =
        sym (ap (λ (p : Result Bytes × Io). p.0) (run ∙ run')) ∙ h in
      (
        first,
        rest,
        remote,
        sym (inbox-send_nonce b io) ∙ i,
        brings,
        cc,
        ap (λ (p : Result Bytes × Io). p.1.inbox) (run ∙ run') ∙ left,
      )
