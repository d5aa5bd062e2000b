-- ===== src/Rtc/Io/Keeps.antt =====
-- The steps over the wire leave alone what the app was shown.
use magic_share.Base.{
  ℕ, zero, suc, ◌≡◌, refl, Bool, true, false, String, Option, some, none, List, [], ◌∷◌,
}
use magic_share.Exec.{Exec, pure, fold}
use magic_share.Exec.Keeps.{Keeps, Keeps-bind, Keeps-fold}
use magic_share.Rtc.{Bytes, DataChannelMessage}
use magic_share.Rtc.Chunks.{process_in_chunks}
use magic_share.Rtc.Chunks.Emit.{process_in_chunks-fold}
use magic_share.Rtc.Io.{
  Io, Text, FileDto, send, transmit, status, notify, recv, take_first, or_fail, RtcStatus,
}

-- The file list that the receiving app was offered, and the selection told to the sending app.
abbrev pub shown : Io → Option (List FileDto) × Option (List Text)
shown io = (io.offered, io.selection)

transmit_keeps :
    (msg : DataChannelMessage) (io : Io) (n : ℕ) → shown (transmit msg io n).1 ≡ shown io
transmit_keeps msg io zero = refl
transmit_keeps msg io (suc n) = refl

notify_keeps : (s : RtcStatus) (io : Io) (b : Bool) → shown (notify s io b).1 ≡ shown io
notify_keeps s io true = refl
notify_keeps s io false = refl

take_keeps : (io : Io) (inbox : List DataChannelMessage) → shown (take_first io inbox).1 ≡ shown io
take_keeps io [] = refl
take_keeps io (msg ∷ rest) = refl

pub send-Keeps : (msg : DataChannelMessage) → Keeps shown (send msg)
send-Keeps msg io = transmit_keeps msg io io.capacity

pub status-Keeps : (s : RtcStatus) → Keeps shown (status s)
status-Keeps s io = notify_keeps s io io.listening

pub recv-Keeps : Keeps shown recv
recv-Keeps io = take_keeps io io.inbox

pub or_fail-Keeps : {A : Type 0} (o : Option A) (e : String) → Keeps shown (or_fail o e)
or_fail-Keeps none e io = refl
or_fail-Keeps (some a) e io = refl

pub process-Keeps :
    {T : Type 0} (t : T) (rx : List Bytes) (callback : T → Bytes → Exec Io T)
    → ((u : T) (b : Bytes) → Keeps shown (callback u b))
    → Keeps shown (process_in_chunks t rx callback)
process-Keeps t rx callback h io =
    let (cs, whole, sizes, run) = process_in_chunks-fold t rx callback in
    rw run (
      Keeps-bind shown (fold callback t cs) (λ _. pure tt) (Keeps-fold shown callback h t cs)
        (λ _ w. refl) io)

inbox-transmit :
    (msg : DataChannelMessage) (io : Io) (n : ℕ) → (transmit msg io n).1.inbox ≡ io.inbox
inbox-transmit msg io zero = refl
inbox-transmit msg io (suc n) = refl

pub inbox-send : (msg : DataChannelMessage) (io : Io) → (send msg io).1.inbox ≡ io.inbox
inbox-send msg io = inbox-transmit msg io io.capacity
