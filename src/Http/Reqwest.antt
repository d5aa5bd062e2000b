-- ===== src/Http/Reqwest.antt =====
-- What core/src/http/client asks of reqwest and gets back, and the errors of its calls.
use magic_share.Base.{
  ℕ, Bool, true, false, Option, none, some, [], ◌∷◌, String, codes, Result, ok, err,
}
use magic_share.Rtc.Io.{Codec}
use magic_share.Crypto.{Bytes, Text}
use magic_share.Http.Messages.{
  ProtocolType, RegisterDto, RegisterDtoV2, RegisterResponseDto, RegisterResponseDtoV2,
  PrepareUploadRequestDto, PrepareUploadResponseDto, PrepareUploadRequestDtoV2,
  PrepareUploadResponseDtoV2, InfoResponseDtoV2, PrepareDownloadResponseDtoV2,
}
use magic_share.Http.Routes.{Method}

pub data ClientError : Type 0 where
  status_code : ℕ → Option Text → ClientError
  reqwest json io : ClientError
  other : String → ClientError

pub data Outcome (A : Type 0) : Type 0 where
  success : A → Outcome A
  failure : ClientError → Outcome A

infixl 5 ◌>>=◌
abbrev pub ◌>>=◌ : {A B : Type 0} → Outcome A → (A → Outcome B) → Outcome B
failure e >>= rest = failure e
success a >>= rest = rest a

-- `?` on an `anyhow::Result`, and on what reqwest or serde may not give.
abbrev pub from_result : {A : Type 0} → Result A → Outcome A
from_result (ok a) = success a
from_result (err e) = failure (ClientError.other e)

abbrev pub or_fail : {A : Type 0} → Option A → ClientError → Outcome A
or_fail none e = failure e
or_fail (some a) e = success a

pub record Request : Type 0 where
  pub method : Method
  pub url : Text
  pub body : Bytes

-- `tls_info` is reqwest's record of the connection, with the peer's certificate.
pub record Reply : Type 0 where
  pub status : ℕ
  pub body : Bytes
  pub tls_info : Option (Option Bytes)

-- serde_json at the messages of the client, and at the message of an error.
pub record Messages : Type 0 where
  pub register : Codec RegisterDto
  pub register_response : Codec RegisterResponseDto
  pub register_v2 : Codec RegisterDtoV2
  pub register_response_v2 : Codec RegisterResponseDtoV2
  pub prepare_upload : Codec PrepareUploadRequestDtoV2
  pub prepare_upload_response : Codec PrepareUploadResponseDtoV2
  pub prepare_upload_v3 : Codec PrepareUploadRequestDto
  pub prepare_upload_response_v3 : Codec PrepareUploadResponseDto
  pub info_response : Codec InfoResponseDtoV2
  pub prepare_download_response : Codec PrepareDownloadResponseDtoV2
  pub error_response : Bytes → Option Text

pub record ResultWithPublicKey (A : Type 0) : Type 0 where
  pub public_key : Option Text
  pub body : A

abbrev pub is_https : ProtocolType → Bool
is_https ProtocolType.http = false
is_https ProtocolType.https = true

-- `ProtocolType::as_str`
abbrev pub as_str : ProtocolType → Text
as_str ProtocolType.http = codes "http"
as_str ProtocolType.https = codes "https"

abbrev pub not_empty : Text → Option Text
not_empty [] = none
not_empty (c ∷ t) = some (c ∷ t)

abbrev pub unwrap_or : Option Text → Text → Text
unwrap_or none t = t
unwrap_or (some s) t = s
