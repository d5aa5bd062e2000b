-- ===== src/Bridge/Receive/Calls.antt =====
-- The calls of an app on a receive controller, in any order, and what the app is told.
use magic_share.Base.{false, Option, none, some, List, [], ◌∷◌, ◌++◌, Result}
use magic_share.Rtc.Io.{RtcStatus, RtcFileError, RtcSendFileResponse, FileDto, Text}
use magic_share.Bridge.Receive.{
  RtcFileReceiver, ReceiveController, listen_status, listen_files, send_selection, decline,
  listen_error, listen_receiving, send_file_status,
}

-- What the app has been told so far.
pub record App : Type 0 where
  pub statuses : List (Result RtcStatus)
  pub offered : List (Result (List FileDto))
  pub decided : List (Option (List Text) × Result (Unit {0}))
  pub errors : List (Result RtcFileError)
  pub receivers : List (Result RtcFileReceiver)

abbrev pub told_nothing : App
told_nothing = record { statuses = []; offered = []; decided = []; errors = []; receivers = [] }

-- The calls of the app, and the end of the session's wait for a selection.
pub data Call : Type 0 where
  statuses files errors receiving declines stops : Call
  selects : List Text → Call
  confirms : RtcSendFileResponse → Call

abbrev pub call : Call → ReceiveController × App → ReceiveController × App
call statuses (c, a) =
    let (l, c') = listen_status c in (c', record a { statuses = a.statuses ++ l })
call files (c, a) = let (r, c') = listen_files c in (c', record a { offered = a.offered ++ r ∷ [] })
call errors (c, a) = let (l, c') = listen_error c in (c', record a { errors = a.errors ++ l })
call receiving (c, a) =
    let (l, c') = listen_receiving c in (c', record a { receivers = a.receivers ++ l })
call declines (c, a) =
    let (r, c') = decline c in (c', record a { decided = a.decided ++ (none, r) ∷ [] })
call stops (c, a) = (record c { waits = false }, a)
call (selects l) (c, a) =
    let (r, c') = send_selection l c in (c', record a { decided = a.decided ++ (some l, r) ∷ [] })
call (confirms status) (c, a) = ((send_file_status status c).1, a)

unfoldable pub run : List Call → ReceiveController × App → ReceiveController × App
run [] w = w
run (k ∷ ks) w = run ks (call k w)
