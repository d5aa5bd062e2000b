-- ===== src/Rtc/Pin/Examples.antt =====
-- The theorems on PINs at two tries for the PIN "12".
use magic_share.Base.{none, ◌≡◌, refl, List, [], ◌∷◌, ok, codes, some, arith, true}
use magic_share.Exec.{Exec, pure}
use magic_share.Rtc.Io.{Io, Codec}
use magic_share.Rtc.Pin.{Pin, PinConfig, VerifyPinResult, verify_pin, verify_loop}
use magic_share.Rtc.Pin.Verify.{Passed, verify_pin_sound}
use magic_share.Rtc.Pin.Verdict.{guess_messages}

-- A codec that writes the code points themselves.
abbrev plain : Codec Pin
plain = record { encode = λ pin. pin; decode = some; decode-encode = λ pin. refl }

abbrev config : PinConfig
config = record { pin = codes "12"; max_tries = 2 }

-- Tells the remote peer nothing.
abbrev silent : VerifyPinResult → Exec Io (Unit {0})
silent r = pure tt

abbrev guesses : List Pin
guesses = codes "9" ∷ codes "12" ∷ codes "7" ∷ []

abbrev peer : Io
peer = record {
  inbox = guess_messages plain guesses;
  outbox = [];
  statuses = [];
  capacity = 0;
  listening = true;
  errors = [];
  file_results = [];
  received = [];
  offered = none;
  selection = none;
  appetite = 0;
}

passes : (verify_pin plain config silent true peer).0 ≡ ok tt
unfolding verify_pin verify_loop
passes = refl

verify_pin_sound_example :
    Passed plain config silent (λ r io. refl) 2 [] peer (verify_pin plain config silent true peer).1
verify_pin_sound_example =
    verify_pin_sound plain config silent (λ r io. refl) true peer (omega arith) passes
