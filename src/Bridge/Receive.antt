-- ===== src/Bridge/Receive.antt =====
-- app/rust/src/api/webrtc.rs: `RTCReceiveController` and `RTCFileReceiver`, the app's ends of the
-- channels of `accept_offer`. What a receiver will still yield until its sender is dropped is the
-- list of its messages, and a slot that was taken is `none`.
pub mod Calls
pub mod Asked
pub mod Given
pub mod Files
mod Examples
use magic_share.Base.{
  ℕ, Bool, true, false, String, Option, none, some, List, [], ◌∷◌, ◌++◌, map, Result, ok, err,
  if◌then◌else◌,
}
use magic_share.Rtc.Io.{RtcStatus, RtcFileError, RtcFile, RtcSendFileResponse, FileDto, Text}
use magic_share.Exec.{Exec}
use magic_share.Crypto.Token.{VerifyingTokenKey}
use magic_share.Bridge.Keys.{ExpectingPublicKey, with_keys}
use magic_share.Bridge.{Bytes, buffer_receiver}

pub record RtcFileReceiver : Type 0 where
  pub file_id : Text
  pub binary_rx : Option (List Bytes)

-- `selected_tx` says whether the slot holds the sender, and `waits` whether the session still
-- holds the receiver; `selected` is what it got. `reads` is the receiver of `file_status_tx`.
pub record ReceiveController : Type 0 where
  pub status_rx : Option (List RtcStatus)
  pub files_rx : Option (Option (List FileDto))
  pub selected_tx : Bool
  pub waits : Bool
  pub selected : List (Option (List Text))
  pub error_rx : Option (List RtcFileError)
  pub receiving_rx : Option (List RtcFile)
  pub reads : Bool
  pub file_status : List RtcSendFileResponse

-- What the task of a session sends on its channels, and what it returns.
pub record Session : Type 0 where
  pub statuses : List RtcStatus
  pub offered : Option (List FileDto)
  pub errors : List RtcFileError
  pub received : List RtcFile
  pub result : Result (Unit {0})

-- The task that runs a session adds the error of one that fails.
abbrev pub failure : Result (Unit {0}) → List RtcStatus
failure (ok u) = []
failure (err e) = RtcStatus.error e ∷ []

abbrev pub reported : Session → List RtcStatus
reported s = s.statuses ++ failure s.result

-- What `accept_offer` returns for a session.
abbrev pub receive_controller : Session → ReceiveController
receive_controller s = record {
  status_rx = some (reported s);
  files_rx = some s.offered;
  selected_tx = true;
  waits = true;
  selected = [];
  error_rx = some s.errors;
  receiving_rx = some s.received;
  reads = true;
  file_status = [];
}

-- `accept_offer`; the task that it starts makes of the keys the session.
abbrev pub accept_offer :
    {SigningKey : Type 0}
    → (Text → Result SigningKey)
    → (Text → Text → Result VerifyingTokenKey)
    → (SigningKey → Option VerifyingTokenKey → Session)
    → Text
    → Option ExpectingPublicKey
    → Result ReceiveController
accept_offer parse_private_key parse session private_key expecting =
    with_keys parse_private_key parse private_key expecting
      λ key expected. receive_controller (session key expected)

-- The loops `while let Some(..) = rx.recv().await { sink.add(..) }` behind a `take`.
abbrev pub drain {ℓ κ} :
    {A : Type ℓ} {B : Type κ} → String → (A → B) → Option (List A) → List (Result B)
drain taken show none = err taken ∷ []
drain taken show (some messages) = map (λ m. ok (show m)) messages

-- `oneshot::Receiver` behind a `take`
abbrev pub await_one {ℓ} : {A : Type ℓ} → String → String → Option (Option A) → Result A
await_one taken closed none = err taken
await_one taken closed (some none) = err closed
await_one taken closed (some (some a)) = ok a

unfoldable pub listen_status : ReceiveController → List (Result RtcStatus) × ReceiveController
listen_status c =
    (drain "Status stream already listened to" (λ s. s) c.status_rx, record c { status_rx = none })

unfoldable pub listen_files : ReceiveController → Result (List FileDto) × ReceiveController
listen_files c = (
  await_one "Files already received" "Files channel closed" c.files_rx,
  record c { files_rx = none },
)

-- What `send_selection` and `decline` do with the selection.
unfoldable pub decide :
    Option (List Text) → ReceiveController → Result (Unit {0}) × ReceiveController
decide selection c =
    if c.selected_tx
    then (if c.waits
        then (ok tt, record c { selected_tx = false; selected = c.selected ++ selection ∷ [] })
        else (err "Selected files channel closed", record c { selected_tx = false }))
    else (err "Selected files already sent", c)

abbrev pub send_selection : List Text → ReceiveController → Result (Unit {0}) × ReceiveController
send_selection selection = decide (some selection)

abbrev pub decline : ReceiveController → Result (Unit {0}) × ReceiveController
decline = decide none

unfoldable pub listen_error : ReceiveController → List (Result RtcFileError) × ReceiveController
listen_error c =
    (drain "Error stream already listened to" (λ e. e) c.error_rx, record c { error_rx = none })

abbrev pub file_receiver : RtcFile → RtcFileReceiver
file_receiver file = record { file_id = file.file_id; binary_rx = some file.pieces }

unfoldable pub listen_receiving :
    ReceiveController → List (Result RtcFileReceiver) × ReceiveController
listen_receiving c = (
  drain "Receiving stream already listened to" file_receiver c.receiving_rx,
  record c { receiving_rx = none },
)

unfoldable pub send_file_status :
    RtcSendFileResponse → ReceiveController → Result (Unit {0}) × ReceiveController
send_file_status status c =
    if c.reads
    then (ok tt, record c { file_status = c.file_status ++ status ∷ [] })
    else (err "channel closed", c)

-- A message for the app.
abbrev pub add : Bytes → Exec (List Bytes) (Unit {0})
add batch sink = (ok tt, sink ++ batch ∷ [])

abbrev pub buffered : Option (List Bytes) → List Bytes → Result (Unit {0}) × List Bytes
buffered none sink = (err "File receiver listened to", sink)
buffered (some rx) sink = (ok tt, (buffer_receiver rx add sink).1)

-- `RTCFileReceiver::receive`: the result, the sink, and what is left.
unfoldable pub receive :
    RtcFileReceiver → List Bytes → (Result (Unit {0}) × List Bytes) × RtcFileReceiver
receive f sink = (buffered f.binary_rx sink, record f { binary_rx = none })
