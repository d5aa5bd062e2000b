-- ===== src/Http/Toy.antt =====
-- Codecs of the HTTP messages for tests.
use magic_share.Base.{ℕ, zero, suc, ◌≡◌, refl, Bool, true, false, Option, some}
use magic_share.Signaling.{DeviceType}
use magic_share.Crypto.{Text}
use magic_share.Rtc.Session.Toy.{Prefix, number, pair, iso, list, codec, chars, optional, file_dto}
use magic_share.Http.Messages.{
  ProtocolType, ProtocolTypeV2, RegisterDto, RegisterDtoV2, RegisterResponseDto,
  RegisterResponseDtoV2, InfoResponseDtoV2,
}
use magic_share.Http.Reqwest.{Messages}

abbrev pub to_device : ℕ → DeviceType
to_device zero = DeviceType.mobile
to_device (suc zero) = DeviceType.desktop
to_device (suc (suc zero)) = DeviceType.web
to_device (suc (suc (suc zero))) = DeviceType.headless
to_device n = DeviceType.server

abbrev pub from_device : DeviceType → ℕ
from_device DeviceType.mobile = 0
from_device DeviceType.desktop = 1
from_device DeviceType.web = 2
from_device DeviceType.headless = 3
from_device DeviceType.server = 4

pub device-law : (d : DeviceType) → to_device (from_device d) ≡ d
device-law DeviceType.mobile = refl
device-law DeviceType.desktop = refl
device-law DeviceType.web = refl
device-law DeviceType.headless = refl
device-law DeviceType.server = refl

abbrev pub device : Prefix DeviceType
device = iso number to_device from_device device-law

abbrev pub to_bool : ℕ → Bool
to_bool zero = false
to_bool (suc n) = true

abbrev pub from_bool : Bool → ℕ
from_bool false = 0
from_bool true = 1

pub bool-law : (b : Bool) → to_bool (from_bool b) ≡ b
bool-law false = refl
bool-law true = refl

abbrev pub bool : Prefix Bool
bool = iso number to_bool from_bool bool-law

abbrev pub Device : Type 0
Device = Text × (Text × (Option Text × (Option DeviceType × (Text × Bool))))

abbrev pub description : Prefix Device
description =
    pair chars (pair chars (pair (optional chars) (pair (optional device) (pair chars bool))))

abbrev pub to_protocol : Bool → ProtocolType
to_protocol false = ProtocolType.http
to_protocol true = ProtocolType.https

abbrev pub from_protocol : ProtocolType → Bool
from_protocol ProtocolType.http = false
from_protocol ProtocolType.https = true

pub protocol-law : (p : ProtocolType) → to_protocol (from_protocol p) ≡ p
protocol-law ProtocolType.http = refl
protocol-law ProtocolType.https = refl

abbrev pub to_protocol_v2 : Bool → ProtocolTypeV2
to_protocol_v2 false = ProtocolTypeV2.http
to_protocol_v2 true = ProtocolTypeV2.https

abbrev pub from_protocol_v2 : ProtocolTypeV2 → Bool
from_protocol_v2 ProtocolTypeV2.http = false
from_protocol_v2 ProtocolTypeV2.https = true

pub protocol_v2-law : (p : ProtocolTypeV2) → to_protocol_v2 (from_protocol_v2 p) ≡ p
protocol_v2-law ProtocolTypeV2.http = refl
protocol_v2-law ProtocolTypeV2.https = refl

abbrev pub register_codec : Prefix RegisterDto
register_codec =
    iso (pair description (pair number (iso bool to_protocol from_protocol protocol-law)))
      (λ v. record {
        alias = v.0.0;
        version = v.0.1.0;
        device_model = v.0.1.1.0;
        device_type = v.0.1.1.1.0;
        token = v.0.1.1.1.1.0;
        port = v.1.0;
        protocol = v.1.1;
        has_web_interface = v.0.1.1.1.1.1;
      })
      (λ d. (
        (d.alias, (d.version, (d.device_model, (d.device_type, (d.token, d.has_web_interface))))),
        (d.port, d.protocol),
      ))
      (λ d. refl)

abbrev pub register_v2_codec : Prefix RegisterDtoV2
register_v2_codec =
    iso (pair description (pair number (iso bool to_protocol_v2 from_protocol_v2 protocol_v2-law)))
      (λ v. record {
        alias = v.0.0;
        version = v.0.1.0;
        device_model = v.0.1.1.0;
        device_type = v.0.1.1.1.0;
        fingerprint = v.0.1.1.1.1.0;
        port = v.1.0;
        protocol = v.1.1;
        download = v.0.1.1.1.1.1;
      })
      (λ d. (
        (d.alias, (d.version, (d.device_model, (d.device_type, (d.fingerprint, d.download))))),
        (d.port, d.protocol),
      ))
      (λ d. refl)

abbrev pub register_response_codec : Prefix RegisterResponseDto
register_response_codec =
    iso description
      (λ v. record {
        alias = v.0;
        version = v.1.0;
        device_model = v.1.1.0;
        device_type = v.1.1.1.0;
        token = v.1.1.1.1.0;
        has_web_interface = v.1.1.1.1.1;
      })
      (λ d.
        (d.alias, (d.version, (d.device_model, (d.device_type, (d.token, d.has_web_interface))))))
      (λ d. refl)

abbrev pub register_response_v2_codec : Prefix RegisterResponseDtoV2
register_response_v2_codec =
    iso description
      (λ v. record {
        alias = v.0;
        version = v.1.0;
        device_model = v.1.1.0;
        device_type = v.1.1.1.0;
        fingerprint = v.1.1.1.1.0;
        download = v.1.1.1.1.1;
      })
      (λ d. (d.alias, (d.version, (d.device_model, (d.device_type, (d.fingerprint, d.download))))))
      (λ d. refl)

abbrev pub info_codec : Prefix InfoResponseDtoV2
info_codec =
    iso description
      (λ v. record {
        alias = v.0;
        version = v.1.0;
        device_model = v.1.1.0;
        device_type = v.1.1.1.0;
        fingerprint = v.1.1.1.1.0;
        download = v.1.1.1.1.1;
      })
      (λ d. (d.alias, (d.version, (d.device_model, (d.device_type, (d.fingerprint, d.download))))))
      (λ d. refl)

abbrev pub toy_messages : Messages
toy_messages = record {
  register = codec register_codec;
  register_response = codec register_response_codec;
  register_v2 = codec register_v2_codec;
  register_response_v2 = codec register_response_v2_codec;
  prepare_upload = codec (
      iso (pair register_v2_codec (list (pair chars file_dto)))
        (λ v. record { info = v.0; files = v.1 }) (λ d. (d.info, d.files)) (λ d. refl));
  prepare_upload_response = codec (
      iso (pair chars (list (pair chars chars))) (λ v. record { session_id = v.0; files = v.1 })
        (λ d. (d.session_id, d.files)) (λ d. refl));
  prepare_upload_v3 = codec (
      iso (pair register_codec (list (pair chars file_dto)))
        (λ v. record { info = v.0; files = v.1 }) (λ d. (d.info, d.files)) (λ d. refl));
  prepare_upload_response_v3 = codec (
      iso (pair chars (list (pair chars chars))) (λ v. record { session_id = v.0; files = v.1 })
        (λ d. (d.session_id, d.files)) (λ d. refl));
  info_response = codec info_codec;
  prepare_download_response = codec (
      iso (pair info_codec (pair chars (list (pair chars file_dto))))
        (λ v. record { info = v.0; session_id = v.1.0; files = v.1.1 })
        (λ d. (d.info, (d.session_id, d.files))) (λ d. refl));
  error_response = some;
}
