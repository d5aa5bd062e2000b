-- ===== src/Rtc/Io.antt =====
-- One peer's end of a connection: what will be received, what has been sent, and what the app has
-- been told. A closed stream of messages is the end of the inbox.
pub mod Keeps
pub mod Sends
use magic_share.Base.{
  ℕ, zero, suc, Bool, true, false, String, Option, none, some, List, [], ◌∷◌, ◌++◌, Result, ok, err,
  ◌≡◌,
}
use magic_share.Exec.{Exec, pure, fail}
use magic_share.Rtc.{Bytes, DataChannelMessage}

pub data RtcStatus : Type 0 where
  sdp_exchanged connected pin_required too_many_attempts declined sending finished : RtcStatus
  error : String → RtcStatus

-- The code points of a text.
abbrev pub Text : Type 0
Text = List ℕ

pub record RtcFileError : Type 0 where
  pub file_id : Text
  pub error : String

-- `RTCFile`: a file in the app's hands, with the pieces put into its stream so far.
pub record RtcFile : Type 0 where
  pub file_id : Text
  pub pieces : List Bytes

pub record RtcSendFileResponse : Type 0 where
  pub id : Text
  pub success : Bool
  pub error : Option String

-- core/src/model/transfer.rs
pub record FileMetadata : Type 0 where
  pub modified : Option Text
  pub accessed : Option Text

pub record FileDto : Type 0 where
  pub id : Text
  pub file_name : Text
  pub size : ℕ
  pub file_type : Text
  pub sha256 : Option Text
  pub preview : Option Text
  pub metadata : Option FileMetadata

pub record Io : Type 0 where
  pub inbox : List DataChannelMessage
  pub outbox : List DataChannelMessage
  pub statuses : List RtcStatus
  -- How many more messages the data channel takes before it breaks.
  pub capacity : ℕ
  -- Whether the app still listens to the status.
  pub listening : Bool
  -- What `error_tx` was told.
  pub errors : List RtcFileError
  -- The user's verdicts on received files, in `user_error_rx`.
  pub file_results : List RtcSendFileResponse
  -- The files published to the app, the newest first.
  pub received : List RtcFile
  -- The file list that the receiving app was offered, and the files that the sending app was told
  -- are wanted.
  pub offered : Option (List FileDto)
  pub selection : Option (List Text)
  -- How many more pieces the app takes before it drops a file's stream.
  pub appetite : ℕ

-- serde_json at a type: what is written reads back.
pub record Codec (A : Type 0) : Type 0 where
  pub encode : A → Bytes
  pub decode : Bytes → Option A
  pub decode-encode : (a : A) → decode (encode a) ≡ some a

abbrev pub transmit : DataChannelMessage → Io → ℕ → Result (Unit {0}) × Io
transmit msg io zero = (err "data channel closed", io)
transmit msg io (suc n) = (ok tt, record io { outbox = io.outbox ++ msg ∷ []; capacity = n })

-- `data_channel.send_text(..).await?`, and `send` at a binary message
abbrev pub send : DataChannelMessage → Exec Io (Unit {0})
send msg io = transmit msg io io.capacity

abbrev pub notify : RtcStatus → Io → Bool → Result (Unit {0}) × Io
notify s io true = (ok tt, record io { statuses = io.statuses ++ s ∷ [] })
notify s io false = (err "channel closed", io)

-- `status_tx.send(..).await?`
abbrev pub status : RtcStatus → Exec Io (Unit {0})
status s io = notify s io io.listening

-- `let _ = ..`: an error is dropped.
abbrev pub ignore : {A : Type 0} → Exec Io A → Exec Io (Unit {0})
ignore m io = (ok tt, (m io).1)

abbrev pub take_first : Io → List DataChannelMessage → Result (Option DataChannelMessage) × Io
take_first io [] = (ok none, io)
take_first io (msg ∷ rest) = (ok (some msg), record io { inbox = rest })

-- `receive_rx.recv().await`
abbrev pub recv : Exec Io (Option DataChannelMessage)
recv io = take_first io io.inbox

abbrev pub or_fail : {A : Type 0} → Option A → String → Exec Io A
or_fail none e = fail e
or_fail (some a) e = pure a
