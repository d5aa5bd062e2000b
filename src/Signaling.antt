-- ===== src/Signaling.antt =====
-- core/src/webrtc/signaling.rs and core/src/model/discovery.rs: what clients and the signaling
-- server tell each other. A `Uuid` is a number; names, tokens and SDP texts are opaque strings.
pub mod Client
pub mod Connect
use magic_share.Base.{ℕ, String, Option, List}

abbrev pub Uuid : Type 0
Uuid = ℕ

pub data DeviceType : Type 0 where
  mobile desktop web headless server : DeviceType

pub record ClientInfoWithoutId : Type 0 where
  pub alias : String
  pub version : String
  pub device_model : Option String
  pub device_type : Option DeviceType
  pub token : String

pub record ClientInfo : Type 0 where
  pub id : Uuid
  pub alias : String
  pub version : String
  pub device_model : Option String
  pub device_type : Option DeviceType
  pub token : String

-- `ClientInfo::from`
abbrev pub client_info : ClientInfoWithoutId → Uuid → ClientInfo
client_info info id = record {
  id = id;
  alias = info.alias;
  version = info.version;
  device_model = info.device_model;
  device_type = info.device_type;
  token = info.token;
}

-- `ClientInfoWithoutId::from`
abbrev pub without_id : ClientInfo → ClientInfoWithoutId
without_id info = record {
  alias = info.alias;
  version = info.version;
  device_model = info.device_model;
  device_type = info.device_type;
  token = info.token;
}

pub record WsServerSdpMessage : Type 0 where
  pub peer : ClientInfo
  pub session_id : String
  pub sdp : String

pub data WsServerMessage : Type 0 where
  hello : ClientInfo → List ClientInfo → WsServerMessage
  join : ClientInfo → WsServerMessage
  update : ClientInfo → WsServerMessage
  left : Uuid → WsServerMessage
  offer : WsServerSdpMessage → WsServerMessage
  answer : WsServerSdpMessage → WsServerMessage
  error : ℕ → WsServerMessage

pub record WsClientSdpMessage : Type 0 where
  pub session_id : String
  pub target : Uuid
  pub sdp : String

pub data WsClientMessage : Type 0 where
  update : ClientInfoWithoutId → WsClientMessage
  offer : WsClientSdpMessage → WsClientMessage
  answer : WsClientSdpMessage → WsClientMessage
