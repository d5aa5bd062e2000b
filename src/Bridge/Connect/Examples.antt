-- ===== src/Bridge/Connect/Examples.antt =====
-- An app whose callback for an answer is registered between two messages of the server.
use magic_share.Base.{
  true, ◌≡◌, refl, ℕ, ◌-◌, ◌≤◌, String, none, List, [], ◌∷◌, map, ok, codes, arith, leb,
}
use magic_share.Crypto.{Text}
use magic_share.Crypto.Token.{
  Overflow, to_verifying_key, verify_token_timestamp, ret, generate_token_timestamp,
}
use magic_share.Http.Examples.{shifted}
use magic_share.Crypto.Token.Examples.{toy_ed}
use magic_share.Signaling.{ClientInfoWithoutId, WsServerMessage}
use magic_share.Signaling.Client.{Event, incoming, register}
use magic_share.Signaling.Client.Forwards.{messages}
use magic_share.Signaling.Client.Examples.{numbered, bob}
use magic_share.Signaling.Connect.{Connecting, connected}
use magic_share.Bridge.Connect.{ProposingClientInfo, returned, sign, with_token}
use magic_share.Bridge.Connect.Reports.{attempt, connect_reports}

abbrev plum : ProposingClientInfo
plum = record { alias = "Plum"; version = "2.1"; device_model = none; device_type = none }

abbrev spell : Text → String
spell t = "token"

abbrev rx : List WsServerMessage
rx =
    WsServerMessage.hello bob []
    ∷ WsServerMessage.answer record { peer = bob; session_id = "s"; sdp = "v=0" }
    ∷ []

abbrev between : List WsServerMessage → List (Event numbered)
between [] = []
between (m ∷ ms) = incoming m ∷ register "s" 7 ∷ between ms

abbrev greeted : ClientInfoWithoutId → Connecting
greeted info = connected bob rx

connect_reports_example :
    (attempt shifted
        (λ b. b)
        toy_ed
        spell
        numbered
        (λ t. ok 7)
        greeted
        between
        plum
        (ok 9)
        (codes "k")
      ≡ returned true (map ok rx))
    × (token : Text) × ("token" ≡ spell token)
    × ((mode : Overflow) (now : ℕ)
        → 9 ≤ now
        → verify_token_timestamp shifted (λ b. b) mode (to_verifying_key toy_ed 7) token (ok now)
          ≡ ret (leb (now - 9) 3600))
unfolding sign messages generate_token_timestamp
connect_reports_example =
    connect_reports shifted (λ b. b) toy_ed spell numbered (λ t. ok 7) greeted between plum 9
      (codes "k") 7 (with_token shifted (λ b. b) toy_ed spell plum []) bob rx refl refl refl
      (λ callback sdp. refl) refl (tt, (tt, (tt, (tt, tt)))) (omega arith)
