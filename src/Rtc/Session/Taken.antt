-- ===== src/Rtc/Session/Taken.antt =====
-- A text that a session receives is that of the first message which waits.
use magic_share.Base.{
  ◌≡◌, refl, ap, ◌∙◌, Bool, true, false, String, Option, some, none, List, [], ◌∷◌, ok,
  if◌then◌else◌,
}
use magic_share.Exec.{continue, pure, fail, ◌>>=◌}
use magic_share.Exec.Keeps.{bind-eq-ok}
use magic_share.Rtc.{Bytes, DataChannelMessage}
use magic_share.Rtc.Io.{Io, take_first, or_fail}
use magic_share.Rtc.Session.{expect_text, receive_text}

pub or_fail-eq-ok :
    {A : Type 0} (o : Option A) (e : String) (io : Io) {a : A}
    → (or_fail o e io).0 ≡ ok a
    → o ≡ some a
or_fail-eq-ok none e io h = cc
or_fail-eq-ok (some b) e io h = cc

chosen-eq-ok :
    (b : Bool) (msg : DataChannelMessage) (io : Io) {p : Bytes}
    → ((if b then pure msg.payload else fail "Expected string message") io).0 ≡ ok p
    → msg.payload ≡ p
chosen-eq-ok true msg io h = cc
chosen-eq-ok false msg io h = cc

first-eq-ok :
    (missing : String) (io : Io) (inbox : List DataChannelMessage) {p : Bytes}
    → (continue (take_first io inbox).0 (expect_text missing) (take_first io inbox).1).0 ≡ ok p
    → (msg : DataChannelMessage) × (rest : List DataChannelMessage) × (inbox ≡ msg ∷ rest)
      × (msg.payload ≡ p)
unfolding expect_text
first-eq-ok missing io [] h = cc
first-eq-ok missing io (msg ∷ rest) h =
    (msg, rest, refl, chosen-eq-ok msg.is_string msg (record io { inbox = rest }) h)

receive_text-eq-ok :
    (missing : String) (io : Io) {p : Bytes}
    → (receive_text missing io).0 ≡ ok p
    → (msg : DataChannelMessage) × (rest : List DataChannelMessage) × (io.inbox ≡ msg ∷ rest)
      × (msg.payload ≡ p)
unfolding receive_text
receive_text-eq-ok missing io h = first-eq-ok missing io io.inbox h

-- A message that was received and read stood first in the inbox.
pub read-eq-ok :
    {A : Type 0} (decode : Bytes → Option A) (missing e : String) (io : Io) {a : A}
    → ((receive_text missing >>= λ bytes. or_fail (decode bytes) e) io).0 ≡ ok a
    → (msg : DataChannelMessage) × (rest : List DataChannelMessage) × (io.inbox ≡ msg ∷ rest)
      × (decode msg.payload ≡ some a)
read-eq-ok decode missing e io h =
    let (bytes, got, f) =
      bind-eq-ok (receive_text missing) (λ bytes. or_fail (decode bytes) e) io h in
    let (msg, rest, i, same) = receive_text-eq-ok missing io got in
    (msg, rest, i, ap decode same ∙ or_fail-eq-ok (decode bytes) e _ f)
