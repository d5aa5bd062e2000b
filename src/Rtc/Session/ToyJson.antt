-- ===== src/Rtc/Session/ToyJson.antt =====
-- The toy codecs at the messages of a session, and toy crates.
use magic_share.Base.{
  length, length-append, ◌<◌, ℕ, ◌+◌, ◌-◌, ◌≡◌, refl, ap, ap₂, ◌≢◌, ◌⊎◌, inl, inr, some, none, List,
  [], ◌∷◌, map, ==-refl, arith, All, number_eq, list_eq, ◌==◌,
}
use magic_share.Map.{HashMap}
use magic_share.Rtc.{Bytes}
use magic_share.Rtc.Io.{Text, FileDto}
use magic_share.Rtc.Messages.{
  Json, RtcTokenResponse, RtcPinReceivingResponse, RtcPinSendingResponse, RtcFileListResponse,
  RtcPairResponse,
}
use magic_share.Rtc.Transfer.{RtcSendFileHeaderRequest}
use magic_share.Rtc.Session.{Crates}
use magic_share.Rtc.Session.Toy.{
  write_all, Prefix, nothing, number, pair, case, iso, list, codec, chars, file_dto,
}

abbrev pub End : Type 0
End = Unit {0}

abbrev pub to_token : Text ⊎ (Text ⊎ End) → RtcTokenResponse
to_token (inl t) = RtcTokenResponse.accepted t
to_token (inr (inl t)) = RtcTokenResponse.pin_required t
to_token (inr (inr u)) = RtcTokenResponse.invalid_signature

abbrev pub from_token : RtcTokenResponse → Text ⊎ (Text ⊎ End)
from_token (RtcTokenResponse.accepted t) = inl t
from_token (RtcTokenResponse.pin_required t) = inr (inl t)
from_token RtcTokenResponse.invalid_signature = inr (inr tt)

pub token-law : (r : RtcTokenResponse) → to_token (from_token r) ≡ r
token-law (RtcTokenResponse.accepted t) = refl
token-law (RtcTokenResponse.pin_required t) = refl
token-law RtcTokenResponse.invalid_signature = refl

abbrev pub to_receiving : End ⊎ (End ⊎ End) → RtcPinReceivingResponse
to_receiving (inl u) = RtcPinReceivingResponse.passed
to_receiving (inr (inl u)) = RtcPinReceivingResponse.pin_required
to_receiving (inr (inr u)) = RtcPinReceivingResponse.too_many_attempts

abbrev pub from_receiving : RtcPinReceivingResponse → End ⊎ (End ⊎ End)
from_receiving RtcPinReceivingResponse.passed = inl tt
from_receiving RtcPinReceivingResponse.pin_required = inr (inl tt)
from_receiving RtcPinReceivingResponse.too_many_attempts = inr (inr tt)

pub receiving-law : (r : RtcPinReceivingResponse) → to_receiving (from_receiving r) ≡ r
receiving-law RtcPinReceivingResponse.passed = refl
receiving-law RtcPinReceivingResponse.pin_required = refl
receiving-law RtcPinReceivingResponse.too_many_attempts = refl

abbrev pub to_sending : List FileDto ⊎ (End ⊎ End) → RtcPinSendingResponse
to_sending (inl l) = RtcPinSendingResponse.file_list l
to_sending (inr (inl u)) = RtcPinSendingResponse.pin_required
to_sending (inr (inr u)) = RtcPinSendingResponse.too_many_attempts

abbrev pub from_sending : RtcPinSendingResponse → List FileDto ⊎ (End ⊎ End)
from_sending (RtcPinSendingResponse.file_list l) = inl l
from_sending RtcPinSendingResponse.pin_required = inr (inl tt)
from_sending RtcPinSendingResponse.too_many_attempts = inr (inr tt)

pub sending-law : (r : RtcPinSendingResponse) → to_sending (from_sending r) ≡ r
sending-law (RtcPinSendingResponse.file_list l) = refl
sending-law RtcPinSendingResponse.pin_required = refl
sending-law RtcPinSendingResponse.too_many_attempts = refl

abbrev pub to_list : (HashMap Text Text ⊎ Text) ⊎ (End ⊎ End) → RtcFileListResponse
to_list (inl (inl m)) = RtcFileListResponse.tokens m
to_list (inl (inr k)) = RtcFileListResponse.pair k
to_list (inr (inl u)) = RtcFileListResponse.declined
to_list (inr (inr u)) = RtcFileListResponse.invalid_signature

abbrev pub from_list : RtcFileListResponse → (HashMap Text Text ⊎ Text) ⊎ (End ⊎ End)
from_list (RtcFileListResponse.tokens m) = inl (inl m)
from_list (RtcFileListResponse.pair k) = inl (inr k)
from_list RtcFileListResponse.declined = inr (inl tt)
from_list RtcFileListResponse.invalid_signature = inr (inr tt)

pub list-law : (r : RtcFileListResponse) → to_list (from_list r) ≡ r
list-law (RtcFileListResponse.tokens m) = refl
list-law (RtcFileListResponse.pair k) = refl
list-law RtcFileListResponse.declined = refl
list-law RtcFileListResponse.invalid_signature = refl

abbrev pub to_pair : Text ⊎ (End ⊎ End) → RtcPairResponse
to_pair (inl t) = RtcPairResponse.paired t
to_pair (inr (inl u)) = RtcPairResponse.pair_declined
to_pair (inr (inr u)) = RtcPairResponse.invalid_signature

abbrev pub from_pair : RtcPairResponse → Text ⊎ (End ⊎ End)
from_pair (RtcPairResponse.paired t) = inl t
from_pair RtcPairResponse.pair_declined = inr (inl tt)
from_pair RtcPairResponse.invalid_signature = inr (inr tt)

pub pair_answer-law : (r : RtcPairResponse) → to_pair (from_pair r) ≡ r
pair_answer-law (RtcPairResponse.paired t) = refl
pair_answer-law RtcPairResponse.pair_declined = refl
pair_answer-law RtcPairResponse.invalid_signature = refl

abbrev pub header : Prefix RtcSendFileHeaderRequest
header =
    iso (pair chars chars) (λ v. record { id = v.0; token = v.1 }) (λ h. (h.id, h.token))
      (λ h. refl)

-- Errors do not occur in the tests.
abbrev pub toy_json : Json
toy_json = record {
  nonce = codec chars;
  token_request = codec chars;
  token_response = codec (iso (case chars (case chars nothing)) to_token from_token token-law);
  pin = codec chars;
  pin_receiving =
      codec (iso (case nothing (case nothing nothing)) to_receiving from_receiving receiving-law);
  pin_sending =
      codec (iso (case (list file_dto) (case nothing nothing)) to_sending from_sending sending-law);
  file_list = codec (
      iso (case (case (list (pair chars chars)) chars) (case nothing nothing)) to_list from_list
        list-law);
  pair = codec (iso (case chars (case nothing nothing)) to_pair from_pair pair_answer-law);
  header = codec header;
  encode_response = λ r. r.id;
}

pub shift_back : (b : Bytes) → map (λ x. x - 47) (map (λ x. x + 47) b) ≡ b
shift_back [] = refl
shift_back (x ∷ b) = ap₂ ◌∷◌ (omega arith) (shift_back b)

pub shift_plain : (b : Bytes) → All (λ c. c ≢ b'.') (map (λ x. x + 47) b)
shift_plain [] = tt
shift_plain (x ∷ b) = (omega arith, shift_plain b)

-- A byte is written as its value plus 47; a signature is the key in front of the message.
abbrev pub toy : Crates
toy = record {
  json = toy_json;
  b64 = record {
    encode = map (λ x. x + 47);
    decode = λ t. some (map (λ x. x - 47) t);
    decode-encode = λ b. ap some (shift_back b);
    encode-Plain = shift_plain;
  };
  sha256 = λ b. b;
  ed = record {
    SigningKey = ℕ;
    VerifyingKey = ℕ;
    Signature = Bytes;
    verifying_key = λ k. k;
    to_public_key_der = λ k. k ∷ [];
    sign = λ k m. k ∷ m;
    to_bytes = λ s. s;
    from_slice = some;
    verify = λ k m s. s == k ∷ m;
    from_slice-to_bytes = λ s. refl;
    verify-sign = λ k m. ==-refl (k ∷ m);
  };
  ed25519_from_pem = λ t. none;
  rsa_from_pem = λ t. none;
}

pub header_long : (h : RtcSendFileHeaderRequest) → 1 < length (toy.json.header.encode h)
header_long h =
    omega (arith, length-append (write_all number h.id) (length h.token ∷ write_all number h.token))
