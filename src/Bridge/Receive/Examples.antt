-- ===== src/Bridge/Receive/Examples.antt =====
-- A session that fails after its first file, and an app that asks twice.
use magic_share.Base.{◌≡◌, refl, ℕ, Option, some, none, List, [], ◌∷◌, ok, err, codes}
use magic_share.Rtc.Io.{RtcStatus, RtcFile}
use magic_share.Bridge.Receive.{
  Session, receive_controller, listen_status, listen_files, listen_receiving, decide,
}
use magic_share.Bridge.Receive.Calls.{
  Call, statuses, files, receiving, declines, selects, run, told_nothing,
}
use magic_share.Bridge.Receive.Given.{Given, app-Given}
use magic_share.Crypto.Token.{VerifyingTokenKey}

abbrev photo : RtcFile
photo = record { file_id = codes "a"; pieces = codes "he" ∷ codes "llo" ∷ [] }

abbrev broken : Session
broken = record {
  statuses = RtcStatus.connected ∷ [];
  offered = some [];
  errors = [];
  received = photo ∷ [];
  result = err "closed";
}

abbrev asks : List Call
asks = statuses ∷ files ∷ selects (codes "a" ∷ []) ∷ declines ∷ files ∷ receiving ∷ statuses ∷ []

seen :
    (run asks (receive_controller broken, told_nothing)).1.statuses
    ≡ ok RtcStatus.connected
      ∷ ok (RtcStatus.error "closed")
      ∷ err "Status stream already listened to"
      ∷ []
unfolding run listen_status listen_files listen_receiving decide
seen = refl

app-Given_example :
    (key : ℕ) × (expected : Option VerifyingTokenKey) × (ok 7 ≡ ok key)
    × (ok none ≡ ok expected)
    × Given broken asks (run asks (receive_controller broken, told_nothing))
app-Given_example =
    app-Given (λ pem. ok 7) (λ pem kind. err "malformed") (λ key expected. broken) (codes "k") none
      (receive_controller broken) asks refl
