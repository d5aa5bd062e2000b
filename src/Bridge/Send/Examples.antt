-- ===== src/Bridge/Send/Examples.antt =====
-- Two files sent side by side, of which the session drops one.
use magic_share.Base.{ℕ, ◌≡◌, List, [], ◌∷◌, codes, ok, none, some, refl}
use magic_share.Bridge.Receive.{Session}
use magic_share.Bridge.Send.{
  RtcFileSender, SendController, send_controller, send_file, taken_file, send, send_into, into,
}
use magic_share.Bridge.Send.Pieces.{
  Event, begins, sends, drops, stops, run, id_at, pieces_at, files_apart,
}

abbrev quiet : Session
quiet = record { statuses = []; offered = none; errors = []; received = []; result = ok tt }

abbrev sender : ℕ → RtcFileSender
sender i = record { binary_tx = i }

abbrev start : SendController
start = send_controller quiet none

abbrev begun : SendController
unfolding send_file taken_file
begun = (send_file (codes "a") start).1

both : (send_file (codes "b") begun).0 ≡ ok (sender 1)
unfolding begun send_file taken_file
both = refl

abbrev two_files : List Event
two_files =
    sends (sender 0) (codes "he")
    ∷ sends (sender 1) (codes "x")
    ∷ drops 1
    ∷ sends (sender 1) (codes "y")
    ∷ sends (sender 0) (codes "llo")
    ∷ stops
    ∷ begins (codes "c")
    ∷ sends (sender 2) (codes "z")
    ∷ []

files_apart_example :
    (id_at 1 begun.files ≡ none)
    × (id_at 1 (run 1 two_files (send_file (codes "b") begun).1).1.files ≡ some (codes "b"))
    × (pieces_at 1 (run 1 two_files (send_file (codes "b") begun).1).1.files ≡ codes "x" ∷ [])
unfolding begun run send_file taken_file send send_into into
files_apart_example =
    files_apart (codes "b") begun (send_file (codes "b") begun).1 (sender 1) two_files refl
