-- ===== src/Rtc/Nonce.antt =====
-- The first phase of `send_offer` and `accept_offer`: the peers exchange nonces.
mod Examples
pub mod Keeps
pub mod Taken
pub mod Sends
pub mod Waits
use mathlib.Core.Path.{subst}
use magic_share.Base.{
  ℕ, suc, ◌≡◌, refl, sym, Bool, true, false, String, Option, none, some, List, [], ◌∷◌, ◌++◌,
  if◌then◌else◌, Result, ok, err, inl, inr, Bool-cases, Option-cases, arith,
}
use magic_share.Exec.{Exec, continue, pure, fail, ◌>>=◌, ◌>>◌}
use magic_share.Crypto.{Base64, validate_nonce}
use magic_share.Rtc.{Bytes, DataChannelMessage, text}
use magic_share.Rtc.Io.{Io, Text, Codec, send, recv, take_first, or_fail}

abbrev pub relabel : {A : Type 0} → String → Result A × Io → Result A × Io
relabel e (ok a, io) = (ok a, io)
relabel e (err cause, io) = (err e, io)

-- `json` is serde's at `RTCNonceMessage`.
module _ (json : Codec Text) (b64 : Base64) where
  abbrev pub nonce_message : Bytes → DataChannelMessage
  nonce_message nonce = text (json.encode (b64.encode nonce))

  check_nonce : Bytes → Exec Io Bytes
  check_nonce nonce = if validate_nonce nonce then pure nonce else fail "Invalid remote nonce"

  read_nonce : Option DataChannelMessage → Exec Io Bytes
  unfolding check_nonce
  read_nonce none = fail "Failed to receive nonce"
  read_nonce (some msg) =
      if msg.is_string
      then (or_fail (json.decode msg.payload) "invalid nonce message" >>= λ nonce.
          or_fail (b64.decode nonce) "Failed to decode remote nonce" >>= check_nonce)
      else fail "Expected string message"

  pub receive_nonce : Exec Io Bytes
  unfolding read_nonce
  receive_nonce = recv >>= read_nonce

  send_nonce : Bytes → Exec Io (Unit {0})
  send_nonce nonce io = relabel "Failed to send nonce" (send (nonce_message nonce) io)

  -- `local_nonce` is what `generate_nonce` returns.
  pub sender_nonce : Bytes → Exec Io Bytes
  unfolding send_nonce receive_nonce
  sender_nonce local_nonce =
      send_nonce local_nonce
      >> (receive_nonce >>= λ remote_nonce. pure (local_nonce ++ remote_nonce))

  pub receiver_nonce : Bytes → Exec Io Bytes
  unfolding send_nonce receive_nonce
  receiver_nonce local_nonce =
      receive_nonce >>= λ remote_nonce. send_nonce local_nonce >> pure (remote_nonce ++ local_nonce)

  -- When both nonces are of a valid length, and the channel takes each peer's message and brings
  -- it to the other, both peers go on with the same nonce, the sender's before the receiver's, and
  -- each has sent its message and taken one.
  pub same_nonce :
      (mine theirs : Bytes) (k l : ℕ) (rest rest' : List DataChannelMessage) (sender receiver : Io)
      → validate_nonce mine ≡ true
      → validate_nonce theirs ≡ true
      → (sender_nonce mine (record sender { inbox = nonce_message theirs ∷ rest; capacity = suc k })
          ≡ (
            ok (mine ++ theirs),
            record sender {
              inbox = rest;
              capacity = k;
              outbox = sender.outbox ++ nonce_message mine ∷ [];
            },
          ))
        × (receiver_nonce theirs
              (record receiver { inbox = nonce_message mine ∷ rest'; capacity = suc l })
            ≡ (
              ok (mine ++ theirs),
              record receiver {
                inbox = rest';
                capacity = l;
                outbox = receiver.outbox ++ nonce_message theirs ∷ [];
              },
            ))
  unfolding sender_nonce receiver_nonce
  same_nonce mine theirs k l rest rest' sender receiver v w =
      rw
        (
          json.decode-encode (b64.encode mine),
          json.decode-encode (b64.encode theirs),
          b64.decode-encode mine,
          b64.decode-encode theirs,
          v,
          w,
        )
        (refl, refl)

  read_nonce_sound :
      (got : Option DataChannelMessage) (io : Io) (n : Bytes)
      → (read_nonce got io).0 ≡ ok n
      → (msg : DataChannelMessage) × (nonce : Text) × (got ≡ some msg)
        × (msg.is_string ≡ true)
        × (json.decode msg.payload ≡ some nonce)
        × (b64.decode nonce ≡ some n)
        × (validate_nonce n ≡ true)
  unfolding read_nonce check_nonce
  read_nonce_sound none io n h = cc
  read_nonce_sound (some msg) io n h = elim (Bool-cases msg.is_string) [
    | inr s ↦ let e : err "Expected string message" ≡ ok n = simp s at h in cc
    | inl s ↦ elim (Option-cases (json.decode msg.payload)) [
      | inl d ↦ let e : err "invalid nonce message" ≡ ok n = simp (s, d) at h in cc
      | inr (nonce, d) ↦ elim (Option-cases (b64.decode nonce)) [
        | inl f ↦ let e : err "Failed to decode remote nonce" ≡ ok n = simp (s, d, f) at h in cc
        | inr (b, f) ↦ elim (Bool-cases (validate_nonce b)) [
          | inr v ↦ let e : err "Invalid remote nonce" ≡ ok n = simp (s, d, f, v) at h in cc
          | inl v ↦
              let e : ok b ≡ ok n = simp (s, d, f, v) at h in
              let same : b ≡ n = cc in (msg, nonce, refl, s, d, rw (sym same) f, rw (sym same) v)
        ]
      ]
    ]
  ]

  taken_sound :
      (io : Io) (inbox : List DataChannelMessage) (n : Bytes)
      → (continue (take_first io inbox).0 read_nonce (take_first io inbox).1).0 ≡ ok n
      → (msg : DataChannelMessage) × (rest : List DataChannelMessage) × (nonce : Text) × (inbox
          ≡ msg ∷ rest)
        × (msg.is_string ≡ true)
        × (json.decode msg.payload ≡ some nonce)
        × (b64.decode nonce ≡ some n)
        × (validate_nonce n ≡ true)
  taken_sound io [] n h = let (msg, nonce, e, s, d, f, v) = read_nonce_sound none io n h in cc
  taken_sound io (msg ∷ rest) n h =
      let (m, nonce, e, s, d, f, v) =
        read_nonce_sound (some msg) (record io { inbox = rest }) n h in
      let same : m ≡ msg = cc in
      (
        msg,
        rest,
        nonce,
        refl,
        subst (λ (x : DataChannelMessage). x.is_string ≡ true) same s,
        subst (λ (x : DataChannelMessage). json.decode x.payload ≡ some nonce) same d,
        f,
        v,
      )

  -- A nonce that `receive_nonce` returns is of a valid length, and is the one in the first message
  -- that arrives, which is a text.
  pub receive_nonce_sound :
      (io : Io) (n : Bytes)
      → (receive_nonce io).0 ≡ ok n
      → (msg : DataChannelMessage) × (rest : List DataChannelMessage) × (nonce : Text) × (io.inbox
          ≡ msg ∷ rest)
        × (msg.is_string ≡ true)
        × (json.decode msg.payload ≡ some nonce)
        × (b64.decode nonce ≡ some n)
        × (validate_nonce n ≡ true)
  unfolding receive_nonce
  receive_nonce_sound io n h = taken_sound io io.inbox n h
