-- ===== src/Bridge/Send.antt =====
-- app/rust/src/api/webrtc.rs: `RTCSendController` and `RTCFileSender`, the app's ends of the
-- channels of `send_offer`. A channel for a file's pieces is shared: the app holds its sender and
-- the session its receiver. So the channels are kept in a store, in the order in which they were
-- made, and a sender points to its channel there.
pub mod Pieces
mod Examples
use magic_share.Base.{
  ℕ, zero, suc, Bool, true, false, Option, none, some, List, [], ◌∷◌, ◌++◌, Result, ok, err, length,
}
use magic_share.Crypto.Token.{VerifyingTokenKey}
use magic_share.Bridge.Keys.{ExpectingPublicKey, with_keys}
use magic_share.Bridge.{Bytes}
use magic_share.Bridge.Receive.{await_one, reported, Session}
use magic_share.Rtc.Io.{RtcStatus, RtcFileError, Text}

-- A file in the hands of the session: what was sent on its channel, and whether the session still
-- holds the receiver.
pub record FileChannel : Type 0 where
  pub file_id : Text
  pub pieces : List Bytes
  pub reads : Bool

-- What the app holds of a file's channel: `binary_tx` is the place of the channel in the store.
pub record RtcFileSender : Type 0 where
  pub binary_tx : ℕ

-- `files` are the messages of `send_tx`, `takes` says whether the session still holds `send_rx`.
-- `selected_rx` is the slot of the controller, which is taken once.
pub record SendController : Type 0 where
  pub status_rx : List RtcStatus
  pub selected_rx : Option (Option (List Text))
  pub error_rx : List RtcFileError
  pub takes : Bool
  pub files : List FileChannel

-- What `send_offer` returns for a session that tells the app `selection`.
abbrev pub send_controller : Session → Option (List Text) → SendController
send_controller s selection = record {
  status_rx = reported s;
  selected_rx = some selection;
  error_rx = s.errors;
  takes = true;
  files = [];
}

-- `send_offer`; the task that it starts makes of the keys the session, and what it tells the app of
-- the selection. Another task answers that the peers are not paired, whatever is asked.
abbrev pub send_offer :
    {SigningKey : Type 0}
    → (Text → Result SigningKey)
    → (Text → Text → Result VerifyingTokenKey)
    → (SigningKey → Option VerifyingTokenKey → Session × Option (List Text))
    → Text
    → Option ExpectingPublicKey
    → Result SendController
send_offer parse_private_key parse session private_key expecting =
    with_keys parse_private_key parse private_key expecting
      λ key expected. let (s, selection) = session key expected in send_controller s selection

-- The app's sink of statuses gets all of them, one loop after the other.
unfoldable pub listen_status : SendController → List RtcStatus × SendController
listen_status c = (c.status_rx, record c { status_rx = [] })

unfoldable pub listen_error : SendController → List RtcFileError × SendController
listen_error c = (c.error_rx, record c { error_rx = [] })

unfoldable pub listen_selected_files : SendController → Result (List Text) × SendController
listen_selected_files c = (
  await_one "Selected files already received" "Selected files channel closed" c.selected_rx,
  record c { selected_rx = none },
)

unfoldable pub taken_file : Bool → Text → SendController → Result RtcFileSender × SendController
taken_file false file_id c = (err "channel closed", c)
taken_file true file_id c = (
  ok (record { binary_tx = length c.files }),
  record c { files = c.files ++ record { file_id = file_id; pieces = []; reads = true } ∷ [] },
)

unfoldable pub send_file : Text → SendController → Result RtcFileSender × SendController
unfolding taken_file
send_file file_id c = taken_file c.takes file_id c

unfoldable pub into : Bool → Bytes → FileChannel → Result (Unit {0}) × FileChannel
into false batch f = (err "channel closed", f)
into true batch f = (ok tt, record f { pieces = f.pieces ++ batch ∷ [] })

-- The sender's channel takes the piece. A sender is there only for a channel that was made, so the
-- error at the end of the store is never met.
unfoldable pub send_into : ℕ → Bytes → List FileChannel → Result (Unit {0}) × List FileChannel
unfolding into
send_into i batch [] = (err "no such channel", [])
send_into zero batch (f ∷ files) = let (r, f') = into f.reads batch f in (r, f' ∷ files)
send_into (suc i) batch (f ∷ files) = let (r, files') = send_into i batch files in (r, f ∷ files')

-- `RTCFileSender::send`
unfoldable pub send : RtcFileSender → Bytes → SendController → Result (Unit {0}) × SendController
send sender batch c =
    let (r, files) = send_into sender.binary_tx batch c.files in (r, record c { files = files })
