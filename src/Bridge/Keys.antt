-- ===== src/Bridge/Keys.antt =====
-- app/rust/src/api/webrtc.rs: the keys that an app hands to `send_offer` and `accept_offer`.
use magic_share.Base.{◌≡◌, Option, none, some, Result, ok, ◌>>=◌, >>=-eq-ok}
use magic_share.Crypto.{Text}
use magic_share.Crypto.Token.{VerifyingTokenKey}

pub record ExpectingPublicKey : Type 0 where
  pub public_key : Text
  pub kind : Text

abbrev pub parse_expected :
    (Text → Text → Result VerifyingTokenKey)
    → Option ExpectingPublicKey
    → Result (Option VerifyingTokenKey)
parse_expected parse none = ok none
parse_expected parse (some key) = parse key.public_key key.kind >>= λ k. ok (some k)

-- The beginning of `send_offer` and `accept_offer`: no session is started unless both keys are
-- read. What is started is `start`.
abbrev pub with_keys :
    {SigningKey Controller : Type 0}
    → (Text → Result SigningKey)
    → (Text → Text → Result VerifyingTokenKey)
    → Text
    → Option ExpectingPublicKey
    → (SigningKey → Option VerifyingTokenKey → Controller)
    → Result Controller
with_keys parse_private_key parse private_key expecting start =
    parse_private_key private_key >>= λ key.
    parse_expected parse expecting >>= λ expected. ok (start key expected)

-- What was started got the keys that were read.
pub with_keys-ok :
    {SigningKey Controller : Type 0} (parse_private_key : Text → Result SigningKey)
    (parse : Text → Text → Result VerifyingTokenKey) (private_key : Text)
    (expecting : Option ExpectingPublicKey)
    (start : SigningKey → Option VerifyingTokenKey → Controller) {c : Controller}
    → with_keys parse_private_key parse private_key expecting start ≡ ok c
    → (key : SigningKey) × (expected : Option VerifyingTokenKey) × (parse_private_key private_key
        ≡ ok key)
      × (parse_expected parse expecting ≡ ok expected)
      × (start key expected ≡ c)
with_keys-ok parse_private_key parse private_key expecting start h =
    let (key, p, rest) = >>=-eq-ok (parse_private_key private_key) _ h in
    let (expected, q, e) = >>=-eq-ok (parse_expected parse expecting) _ rest in
    (key, expected, p, q, cc)
