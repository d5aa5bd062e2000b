-- ===== src/Rtc/Transfer.antt =====
-- The files of a session: the loop that sends them, and the loop that receives them.
pub mod Wire
pub mod Receive
pub mod Send
pub mod Delivery
pub mod Sound
mod Examples
use magic_share.Base.{
  codes, ℕ, zero, suc, Bool, true, false, String, Option, none, some, List, [], ◌∷◌, ◌++◌,
  number_eq, list_eq, ◌==◌, if◌then◌else◌, Result, ok, err,
}
use magic_share.Exec.{Exec, pure, fail, ◌>>=◌, ◌>>◌}
use magic_share.Map.{HashMap, get}
use magic_share.Rtc.{Bytes, DataChannelMessage, text, binary, delimiter, is_delimiter}
use magic_share.Rtc.Chunks.{process_in_chunks}
use magic_share.Rtc.Io.{
  Io, Text, Codec, RtcFile, RtcFileError, RtcSendFileResponse, send, recv, or_fail,
}

pub record RtcSendFileHeaderRequest : Type 0 where
  pub id : Text
  pub token : Text

-- `let _ = error_tx.send(..).await`
abbrev pub report : Text → String → Exec Io (Unit {0})
report file_id error io =
    (ok tt, record io { errors = io.errors ++ record { file_id = file_id; error = error } ∷ [] })

-- `if let Err(e) = .. { report; continue }`
abbrev pub or_report : Text → Result (Unit {0}) → Exec Io (Unit {0})
or_report file_id (ok u) = pure tt
or_report file_id (err e) = report file_id e

abbrev pub send_piece : Unit {0} → Bytes → Exec Io (Unit {0})
send_piece channel piece = send (binary piece) >> pure channel

module _ (json : Codec RtcSendFileHeaderRequest) where
  send_content : Text → Text → List Bytes → Exec Io (Unit {0})
  send_content file_id token pieces =
      send (text (json.encode (record { id = file_id; token = token })))
      >> process_in_chunks tt pieces send_piece

  send_entry : RtcFile → Option Text → Exec Io (Unit {0})
  unfolding send_content
  send_entry file none io = report file.file_id "Failed to get file token" io
  send_entry file (some token) io =
      let (result, io') = send_content file.file_id token file.pieces io in
      or_report file.file_id result io'

  -- `while let Some(message) = sending_rx.recv().await`
  send_files : HashMap Text Text → List RtcFile → Exec Io (Unit {0})
  unfolding send_entry
  send_files file_map [] = pure tt
  send_files file_map (file ∷ rest) =
      send_entry file (get file_map file.file_id) >> send_files file_map rest

  -- The end of the sending task: all files, the delimiter, and a wait for the last answer.
  pub send_all_files : HashMap Text Text → List RtcFile → Exec Io (Unit {0})
  unfolding send_files
  send_all_files file_map files =
      send_files file_map files >> send delimiter >> (recv >>= λ _. pure tt)

-- The file that the receiving loop has open, `RTCFileState`.
pub record RtcFileState : Type 0 where
  pub file_id : Text
  pub size : ℕ

-- How a round of the receiving loop ends: by `break`, or with the file that is open from then on.
pub data Round : Type 0 where
  stop : Round
  go : Option RtcFileState → Round

abbrev pub after_round : (Option RtcFileState → Exec Io (Unit {0})) → Round → Exec Io (Unit {0})
after_round loop stop = pure tt
after_round loop (go file_state) = loop file_state

-- The sizes of the offered files, by their id.
abbrev pub FileSizes : Type 0
FileSizes = HashMap Text ℕ

abbrev put : Bytes → Io → List RtcFile → ℕ → Result (Unit {0}) × Io
put piece io (file ∷ files) (suc n) = (
  ok tt,
  record io { received = record file { pieces = file.pieces ++ piece ∷ [] } ∷ files; appetite = n },
)
put piece io files n = (err "channel closed", io)

-- `state.binary_tx.send(msg.data).await?`: the open file is the newest.
abbrev pub deliver : Bytes → Exec Io (Unit {0})
deliver piece io = put piece io io.received io.appetite

abbrev file_error : Option RtcSendFileResponse → Option String
file_error none = some "Failed to receive file result"
file_error (some r) =
    if r.success then none else some (elim r.error [ none ↦ "Unknown error" | some e ↦ e ])

abbrev is_none : Option String → Bool
is_none none = true
is_none (some e) = false

abbrev pub file_response : Text → Option String → RtcSendFileResponse
file_response id error = record { id = id; success = is_none error; error = error }

abbrev take_result : Io → List RtcSendFileResponse → Result (Option RtcSendFileResponse) × Io
take_result io [] = (ok none, io)
take_result io (r ∷ rest) = (ok (some r), record io { file_results = rest })

abbrev publish : Text → Exec Io (Unit {0})
publish id io = (ok tt, record io { received = record { file_id = id; pieces = [] } ∷ io.received })

module _ (header : Codec RtcSendFileHeaderRequest) (encode_response : RtcSendFileResponse → Bytes)
    (file_tokens : HashMap Text Text) (file_list : FileSizes) where
  -- The answer for the file that has ended.
  close_file : Text → Exec Io (Unit {0})
  close_file id = (λ io. take_result io io.file_results) >>= λ r.
      send (text (encode_response (file_response id (file_error r))))

  start_file : Text → Option ℕ → Exec Io Round
  start_file id none = report id "Expected size to be available" >> pure (go none)
  start_file id (some size) = publish id >> pure (go (some (record { file_id = id; size = size })))

  check_token : RtcSendFileHeaderRequest → Option Text → Exec Io Round
  unfolding start_file
  check_token h none = report h.id "File not found" >> pure (go none)
  check_token h (some entry) =
      if h.token == entry
      then start_file h.id (get file_list h.id)
      else (report h.id "Invalid token" >> pure (go none))

  open_file : Bytes → Exec Io Round
  unfolding check_token
  open_file b =
      or_fail (header.decode b) "invalid file header" >>= λ h. check_token h (get file_tokens h.id)

  receive_string : DataChannelMessage → Option RtcFileState → Exec Io Round
  unfolding close_file open_file
  receive_string msg none = open_file msg.payload
  receive_string msg (some state) =
      close_file state.file_id >> (if is_delimiter msg then pure stop else open_file msg.payload)

  receive_piece : Bytes → Option RtcFileState → Exec Io Round
  receive_piece piece none =
      report (codes "unknown") "Received binary data without a header" >> pure (go none)
  receive_piece piece (some state) = deliver piece >> pure (go (some state))

  receive_message : DataChannelMessage → Option RtcFileState → Exec Io Round
  unfolding receive_string receive_piece
  receive_message msg file_state =
      if msg.is_string then receive_string msg file_state else receive_piece msg.payload file_state

  -- The loop, over the messages that arrive until the stream is closed.
  pub receive_files : List DataChannelMessage → Option RtcFileState → Exec Io (Unit {0})
  unfolding receive_message
  receive_files [] file_state = pure tt
  receive_files (msg ∷ rest) file_state =
      receive_message msg file_state >>= λ round. after_round (receive_files rest) round
