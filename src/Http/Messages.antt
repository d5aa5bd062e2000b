-- ===== src/Http/Messages.antt =====
-- core/src/http/dto.rs and dto_v2.rs: the messages of the two versions of the protocol, and the
-- conversions between them. A port is a `u16`.
use magic_share.Base.{ℕ, Bool, Option, none, some}
use magic_share.Map.{HashMap}
use magic_share.Signaling.{DeviceType}
use magic_share.Rtc.Io.{FileDto}
use magic_share.Crypto.{Text}

pub data ProtocolType : Type 0 where
  http https : ProtocolType

pub data ProtocolTypeV2 : Type 0 where
  http https : ProtocolTypeV2

-- `ProtocolTypeV2::from`
abbrev pub protocol_v2 : ProtocolType → ProtocolTypeV2
protocol_v2 ProtocolType.http = ProtocolTypeV2.http
protocol_v2 ProtocolType.https = ProtocolTypeV2.https

pub record RegisterDto : Type 0 where
  pub alias : Text
  pub version : Text
  pub device_model : Option Text
  pub device_type : Option DeviceType
  pub token : Text
  pub port : ℕ
  pub protocol : ProtocolType
  pub has_web_interface : Bool

pub record RegisterDtoV2 : Type 0 where
  pub alias : Text
  pub version : Text
  pub device_model : Option Text
  pub device_type : Option DeviceType
  pub fingerprint : Text
  pub port : ℕ
  pub protocol : ProtocolTypeV2
  pub download : Bool

-- `RegisterDtoV2::from`
abbrev pub register_v2 : RegisterDto → RegisterDtoV2
register_v2 v3 = record {
  alias = v3.alias;
  version = v3.version;
  device_model = v3.device_model;
  device_type = v3.device_type;
  fingerprint = v3.token;
  port = v3.port;
  protocol = protocol_v2 v3.protocol;
  download = v3.has_web_interface;
}

pub record RegisterResponseDto : Type 0 where
  pub alias : Text
  pub version : Text
  pub device_model : Option Text
  pub device_type : Option DeviceType
  pub token : Text
  pub has_web_interface : Bool

pub record RegisterResponseDtoV2 : Type 0 where
  pub alias : Text
  pub version : Text
  pub device_model : Option Text
  pub device_type : Option DeviceType
  pub fingerprint : Text
  pub download : Bool

-- `RegisterResponseDto::from`
abbrev pub register_response : RegisterResponseDtoV2 → RegisterResponseDto
register_response v2 = record {
  alias = v2.alias;
  version = v2.version;
  device_model = v2.device_model;
  device_type = v2.device_type;
  token = v2.fingerprint;
  has_web_interface = v2.download;
}

pub record PrepareUploadRequestDto : Type 0 where
  pub info : RegisterDto
  pub files : HashMap Text FileDto

pub record PrepareUploadRequestDtoV2 : Type 0 where
  pub info : RegisterDtoV2
  pub files : HashMap Text FileDto

-- `PrepareUploadRequestDtoV2::from`
abbrev pub prepare_upload_request_v2 : PrepareUploadRequestDto → PrepareUploadRequestDtoV2
prepare_upload_request_v2 v3 = record { info = register_v2 v3.info; files = v3.files }

pub record PrepareUploadResponseDto : Type 0 where
  pub session_id : Text
  pub files : HashMap Text Text

pub record PrepareUploadResponseDtoV2 : Type 0 where
  pub session_id : Text
  pub files : HashMap Text Text

-- `PrepareUploadResponseDto::from`
abbrev pub prepare_upload_response : PrepareUploadResponseDtoV2 → PrepareUploadResponseDto
prepare_upload_response v2 = record { session_id = v2.session_id; files = v2.files }

pub record PrepareUploadResult : Type 0 where
  pub status_code : ℕ
  pub response : Option PrepareUploadResponseDto

pub record PrepareUploadResultV2 : Type 0 where
  pub status_code : ℕ
  pub response : Option PrepareUploadResponseDtoV2

abbrev map_response : Option PrepareUploadResponseDtoV2 → Option PrepareUploadResponseDto
map_response none = none
map_response (some r) = some (prepare_upload_response r)

-- `PrepareUploadResult::from`
abbrev pub prepare_upload_result : PrepareUploadResultV2 → PrepareUploadResult
prepare_upload_result v2 = record {
  status_code = v2.status_code;
  response = map_response v2.response;
}

pub record InfoResponseDtoV2 : Type 0 where
  pub alias : Text
  pub version : Text
  pub device_model : Option Text
  pub device_type : Option DeviceType
  pub fingerprint : Text
  pub download : Bool

pub record PrepareDownloadResponseDtoV2 : Type 0 where
  pub info : InfoResponseDtoV2
  pub session_id : Text
  pub files : HashMap Text FileDto
