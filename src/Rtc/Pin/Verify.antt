-- ===== src/Rtc/Pin/Verify.antt =====
-- Nobody passes the PIN check without the PIN, however the connection behaves.
use magic_share.Base.{
  ℕ, zero, suc, ◌+◌, ◌-◌, ◌%◌, ◌≤◌, ◌<◌, ◌≡◌, refl, sym, ap, ◌∙◌, inl, inr, Bool, true, false, ◌||◌,
  some, List, [], ◌∷◌, ◌++◌, number_eq, list_eq, ◌==◌, ltb, leb, Result, ok, err, length, arith,
  Bool-cases, Option-cases, list_test_iff, leb→lt,
}
use magic_share.Exec.{Exec, ◌>>=◌, continue}
use magic_share.Rtc.{DataChannelMessage}
use magic_share.Rtc.Io.{Io, Codec, recv, take_first, notify, RtcStatus}
use magic_share.Rtc.Pin.{
  Pin, PinConfig, VerifyPinResult, parse_pin, give_up, notice, verify_loop, verify_pin,
}

-- The last message taken from the inbox carries the PIN; or none was taken, and the loop was
-- entered with the PIN.
abbrev pub Proves : Codec Pin → Pin → Pin → List DataChannelMessage → Type 0
Proves json pin before [] = before ≡ pin
Proves json pin before (msg ∷ []) = json.decode msg.payload ≡ some pin
Proves json pin before (msg ∷ next ∷ rest) = Proves json pin before (next ∷ rest)

suc-le-suc_of_le : {m n : ℕ} → m ≤ n → suc m ≤ suc n
suc-le-suc_of_le h = omega arith

Proves-same :
    (json : Codec Pin) (pin a b : Pin) (next : DataChannelMessage) (rest : List DataChannelMessage)
    → Proves json pin a (next ∷ rest)
    → Proves json pin b (next ∷ rest)
Proves-same json pin a b next [] h = h
Proves-same json pin a b next (more ∷ rest) h = Proves-same json pin a b more rest h

module _ (json : Codec Pin) (cfg : PinConfig) (send_result : VerifyPinResult → Exec Io (Unit {0}))
    (quiet : (r : VerifyPinResult) (io : Io) → (send_result r io).1.inbox ≡ io.inbox) where
  inbox-notice : (b : Bool) (io : Io) → (notice json cfg send_result b io).1.inbox ≡ io.inbox
  unfolding notice
  inbox-notice true io = quiet VerifyPinResult.pin_required io
  inbox-notice false io = refl

  give_up_fails : (io : Io) → (u : Unit {0}) → ((give_up json cfg send_result io).0 ≡ ok u) → ⊥
  unfolding give_up
  give_up_fails io u h = ground arith

  abbrev pub Passed : ℕ → Pin → Io → Io → Type 0
  Passed tries before io io' =
      (taken : List DataChannelMessage) × (io.inbox ≡ taken ++ io'.inbox)
      × (length taken ≤ tries)
      × Proves json cfg.pin before taken

  Passed-mono :
      (before : Pin) (io io' : Io) {m n : ℕ}
      → m ≤ n
      → Passed m before io io'
      → Passed n before io io'
  Passed-mono before io io' h (taken, split, few, proof) = (taken, split, omega arith, proof)

  Proves-cons :
      (before pin : Pin) (msg : DataChannelMessage) (taken : List DataChannelMessage)
      → json.decode msg.payload ≡ some pin
      → Proves json cfg.pin pin taken
      → Proves json cfg.pin before (msg ∷ taken)
  Proves-cons before pin msg [] d h = d ∙ ap some h
  Proves-cons before pin msg (next ∷ rest) d h = Proves-same json cfg.pin pin before next rest h

  abbrev Loop : Type 0
  Loop = Pin → Exec Io (Unit {0})

  -- One try: a message is taken, and the rest of the loop runs on its PIN.
  try-Passed :
      (loop : Loop) (tries : ℕ) (before : Pin) (io : Io) (inbox : List DataChannelMessage)
      → ((pin : Pin) (w : Io) → (loop pin w).0 ≡ ok tt → Passed tries pin w (loop pin w).1)
      → (((λ (w : Io). take_first w inbox) >>= parse_pin json >>= loop) io).0 ≡ ok tt
      → (taken : List DataChannelMessage) × (inbox
          ≡ taken ++ (((λ (w : Io). take_first w inbox) >>= parse_pin json >>= loop) io).1.inbox)
        × (length taken ≤ suc tries)
        × Proves json cfg.pin before taken
  unfolding parse_pin
  try-Passed loop tries before io [] ih h = cc
  try-Passed loop tries before io (msg ∷ rest) ih h =
      elim (Option-cases (json.decode msg.payload)) [
        | inl d ↦ let failed : err "invalid PIN message" ≡ ok tt = rw d at h in cc
        | inr (pin, d) ↦
            let (taken, split, few, proof) = ih pin (record io { inbox = rest }) (rw d at h) in
            rw d (
              msg ∷ taken,
              ap (◌∷◌ msg) split,
              suc-le-suc_of_le few,
              Proves-cons before pin msg taken d proof,
            )
      ]

  noticed-Passed :
      (loop : Loop) (tries : ℕ) (before : Pin) (b : Bool) (io : Io) (r : Result (Unit {0}))
      → ((pin : Pin) (w : Io) → (loop pin w).0 ≡ ok tt → Passed tries pin w (loop pin w).1)
      → let w = (notice json cfg send_result b io).1 in
        let last = continue {B = Unit {0}} r (λ _. recv >>= parse_pin json >>= loop) w in
        last.0 ≡ ok tt → Passed (suc tries) before io last.1
  noticed-Passed loop tries before b io (err e) ih h = cc
  noticed-Passed loop tries before b io (ok u) ih h =
      let w = (notice json cfg send_result b io).1 in
      let (taken, split, few, proof) = try-Passed loop tries before w w.inbox ih h in
      (taken, sym (inbox-notice b io) ∙ split, few, proof)

  loop-Passed :
      (fuel : ℕ) (before : Pin) (pin_try : ℕ) (initial : Bool) (io : Io)
      → (verify_loop json cfg send_result fuel before pin_try initial io).0 ≡ ok tt
      → cfg.max_tries < 256
      → Passed
          (cfg.max_tries - pin_try)
          before
          io
          (verify_loop json cfg send_result fuel before pin_try initial io).1
  unfolding verify_loop
  loop-Passed zero before pin_try initial io h fits = cc
  loop-Passed (suc fuel) before pin_try initial io h fits = elim (Bool-cases (before == cfg.pin)) [
    | inl e ↦ rw e ([], refl, omega arith, (list_test_iff before cfg.pin).0 e)
    | inr e ↦ elim (Bool-cases (leb cfg.max_tries pin_try)) [
      | inl f ↦ absurd (give_up_fails io tt (rw (e, f) at h))
      | inr f ↦
          let asked = notice json cfg send_result (initial || ltb 0 pin_try) io in
          let loop : Loop =
            λ pin. verify_loop json cfg send_result fuel pin ((pin_try + 1) % 256) false in
          let (taken, split, few, proof) =
            noticed-Passed loop (cfg.max_tries - ((pin_try + 1) % 256)) before
              (initial || ltb 0 pin_try) io asked.0
              (λ pin w g. loop-Passed fuel pin ((pin_try + 1) % 256) false w g fits)
              (rw (e, f) at h) in
          rw (e, f) (taken, split, omega (arith, leb→lt cfg.max_tries pin_try f), proof)
    ]
  ]

  started-Passed :
      (before : Pin) (initial : Bool) (io : Io) (listening : Bool)
      → let told =
          continue
            (notify RtcStatus.pin_required io listening).0
            (λ _. verify_loop json cfg send_result (suc cfg.max_tries) before 0 initial)
            (notify RtcStatus.pin_required io listening).1 in
        told.0 ≡ ok tt → cfg.max_tries < 256 → Passed cfg.max_tries before io told.1
  started-Passed before initial io true h fits =
      let told = record io { statuses = io.statuses ++ RtcStatus.pin_required ∷ [] } in
      let (taken, split, few, proof) =
        loop-Passed (suc cfg.max_tries) before 0 initial told h fits in
      (taken, split, omega arith, proof)
  started-Passed before initial io false h fits = cc

  -- If `verify_pin` lets the remote peer pass, then it took at most `max_tries` messages, from the
  -- front of what the peer sent, and the last of them carries the PIN; or it took none, and the
  -- configured PIN is the empty text. This holds however sends and the app's channel fail, for a
  -- `max_tries` that fits the byte it is kept in and a `send_result` that receives nothing.
  pub verify_pin_sound :
      (initial : Bool) (io : Io)
      → cfg.max_tries < 256
      → (verify_pin json cfg send_result initial io).0 ≡ ok tt
      → Passed cfg.max_tries [] io (verify_pin json cfg send_result initial io).1
  unfolding verify_pin
  verify_pin_sound initial io fits h = started-Passed [] initial io io.listening h fits
