-- ===== src/Rtc/Pin/Verdict.antt =====
-- Who supplies the PIN within the tries gets in, when the connection works.
use magic_share.Base.{
  ◌++◌, ℕ, zero, suc, ◌+◌, ◌-◌, ◌%◌, ◌<◌, ◌≤◌, ◌≡◌, refl, ◌∙◌, ◌⊎◌, inl, inr, Bool, true, false,
  ◌||◌, List, [], ◌∷◌, ◌++◌, number_eq, list_eq, ◌==◌, ltb, leb, ok, arith, Bool-cases,
  list_test_iff,
}
use magic_share.Exec.{Exec, ◌>>=◌, ◌>>◌, continue}
use magic_share.Rtc.{DataChannelMessage, text}
use magic_share.Rtc.Io.{Io, Codec, recv, RtcStatus, notify}
use magic_share.Rtc.Pin.{
  Pin, PinConfig, VerifyPinResult, parse_pin, notice, verify_loop, verify_pin,
}

-- The PIN stands among the first `n` guesses.
abbrev pub Within : Pin → ℕ → List Pin → Type 0
Within pin n [] = ⊥
Within pin n (g ∷ rest) = 0 < n × ((g ≡ pin) ⊎ Within pin (n - 1) rest)

abbrev pub guess_messages : Codec Pin → List Pin → List DataChannelMessage
guess_messages json [] = []
guess_messages json (g ∷ rest) = text (json.encode g) ∷ guess_messages json rest

module _ (json : Codec Pin) (cfg : PinConfig) (send_result : VerifyPinResult → Exec Io (Unit {0}))
    (quiet : (r : VerifyPinResult) (io : Io) → (send_result r io).1.inbox ≡ io.inbox)
    (works : (r : VerifyPinResult) (io : Io) (k : ℕ)
      → io.capacity ≡ suc k
      → ((send_result r io).0 ≡ ok tt) × ((send_result r io).1.capacity ≡ k)) where
  notice_works :
      (b : Bool) (io : Io) (k : ℕ)
      → suc k ≤ io.capacity
      → ((notice json cfg send_result b io).0 ≡ ok tt)
        × (k ≤ (notice json cfg send_result b io).1.capacity)
  unfolding notice
  notice_works true io k room =
      let (returns, left) = works VerifyPinResult.pin_required io (io.capacity - 1) (omega arith) in
      (returns, omega arith)
  notice_works false io k room = (refl, omega arith)

  inbox-notice : (b : Bool) (io : Io) → (notice json cfg send_result b io).1.inbox ≡ io.inbox
  unfolding notice
  inbox-notice true io = quiet VerifyPinResult.pin_required io
  inbox-notice false io = refl

  round_ok :
      (loop : Pin → Exec Io (Unit {0})) (g : Pin) (rest : List DataChannelMessage) (b : Bool)
      (io : Io) (k : ℕ)
      → suc k ≤ io.capacity
      → io.inbox ≡ text (json.encode g) ∷ rest
      → ((w : Io) → k ≤ w.capacity → w.inbox ≡ rest → (loop g w).0 ≡ ok tt)
      → ((notice json cfg send_result b >> (recv >>= parse_pin json >>= loop)) io).0 ≡ ok tt
  unfolding parse_pin
  round_ok loop g rest b io k room e h =
      let (returns, left) = notice_works b io k room in
      let w = (notice json cfg send_result b io).1 in
      rw (returns, inbox-notice b io ∙ e, json.decode-encode g)
        (h (record w { inbox = rest }) left refl)

  loop_ok :
      (fuel : ℕ) (before : Pin) (pin_try : ℕ) (initial : Bool) (guesses : List Pin) (io : Io)
      → cfg.max_tries < 256
      → cfg.max_tries - pin_try < fuel
      → cfg.max_tries - pin_try ≤ io.capacity
      → io.inbox ≡ guess_messages json guesses
      → (before ≡ cfg.pin) ⊎ Within cfg.pin (cfg.max_tries - pin_try) guesses
      → (verify_loop json cfg send_result fuel before pin_try initial io).0 ≡ ok tt
  unfolding verify_loop
  loop_ok zero before pin_try initial guesses io fits enough room e h =
      let never : ⊥ = omega arith in absurd never
  loop_ok (suc fuel) before pin_try initial [] io fits enough room e (inr h) = absurd h
  loop_ok (suc fuel) before pin_try initial guesses io fits enough room e (inl h) =
      rw ((list_test_iff before cfg.pin).1 h) refl
  loop_ok (suc fuel) before pin_try initial (g ∷ rest) io fits enough room e (inr (more, h)) =
      elim (Bool-cases (before == cfg.pin)) [
        | inl t ↦ rw t refl
        | inr t ↦
            let next : (pin_try + 1) % 256 ≡ pin_try + 1 = omega arith in
            let f : leb cfg.max_tries pin_try ≡ false = ground arith in
            let left : cfg.max_tries - (pin_try + 1) ≡ cfg.max_tries - pin_try - 1 = omega arith in
            rw (t, f, next)
              (round_ok (λ pin. verify_loop json cfg send_result fuel pin (pin_try + 1) false) g
                (guess_messages json rest) (initial || ltb 0 pin_try) io
                (cfg.max_tries - (pin_try + 1)) (omega arith) e
                (λ w room' p.
                  loop_ok fuel g (pin_try + 1) false rest w fits (omega arith) room' p (rw left h)))
      ]

  started_ok :
      (initial : Bool) (guesses : List Pin) (io : Io) (listening : Bool)
      → listening ≡ true
      → cfg.max_tries < 256
      → cfg.max_tries ≤ io.capacity
      → io.inbox ≡ guess_messages json guesses
      → ([] ≡ cfg.pin) ⊎ Within cfg.pin cfg.max_tries guesses
      → (continue
          (notify RtcStatus.pin_required io listening).0
          (λ _. verify_loop json cfg send_result (suc cfg.max_tries) [] 0 initial)
          (notify RtcStatus.pin_required io listening).1).0
        ≡ ok tt
  started_ok initial guesses io false heard fits room e h = cc
  started_ok initial guesses io true heard fits room e h =
      let left : cfg.max_tries - 0 ≡ cfg.max_tries = omega arith in
      loop_ok (suc cfg.max_tries) [] 0 initial guesses
        (record io { statuses = io.statuses ++ RtcStatus.pin_required ∷ [] }) fits (omega arith)
        (omega arith) e (rw left h)

  -- Where each result that is sent takes the place of one message on the channel, the channel has
  -- room for `max_tries` of them, the app listens and the peer's messages are guesses: `verify_pin`
  -- lets the peer pass when the PIN is among the first `max_tries` guesses, and also when the
  -- configured PIN is empty. `max_tries` fits its byte.
  pub verify_pin_completes :
      (initial : Bool) (guesses : List Pin) (io : Io)
      → io.listening ≡ true
      → cfg.max_tries < 256
      → cfg.max_tries ≤ io.capacity
      → io.inbox ≡ guess_messages json guesses
      → ([] ≡ cfg.pin) ⊎ Within cfg.pin cfg.max_tries guesses
      → (verify_pin json cfg send_result initial io).0 ≡ ok tt
  unfolding verify_pin
  verify_pin_completes initial guesses io heard fits room e h =
      started_ok initial guesses io io.listening heard fits room e h

-- With an empty PIN the loop ends before it has received anything.
pub verify_pin_empty :
    (json : Codec Pin) (max_tries : ℕ) (send_result : VerifyPinResult → Exec Io (Unit {0}))
    (initial : Bool) (io : Io)
    → verify_pin json
        (record { pin = []; max_tries = max_tries })
        send_result
        initial
        (record io { listening = true })
      ≡ (
        ok tt,
        record io { listening = true; statuses = io.statuses ++ RtcStatus.pin_required ∷ [] },
      )
unfolding verify_pin verify_loop
verify_pin_empty json max_tries send_result initial io = refl
