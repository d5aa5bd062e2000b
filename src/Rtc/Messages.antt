-- ===== src/Rtc/Messages.antt =====
-- The messages of a session before the files, and serde_json at each.
use magic_share.Base.{List}
use magic_share.Map.{HashMap}
use magic_share.Rtc.{Bytes}
use magic_share.Rtc.Io.{Text, Codec, FileDto, RtcSendFileResponse}
use magic_share.Rtc.Pin.{Pin}
use magic_share.Rtc.Transfer.{RtcSendFileHeaderRequest}

pub data RtcTokenResponse : Type 0 where
  accepted pin_required : Text → RtcTokenResponse
  invalid_signature : RtcTokenResponse

pub data RtcPinReceivingResponse : Type 0 where
  passed pin_required too_many_attempts : RtcPinReceivingResponse

pub data RtcPinSendingResponse : Type 0 where
  file_list : List FileDto → RtcPinSendingResponse
  pin_required too_many_attempts : RtcPinSendingResponse

pub data RtcFileListResponse : Type 0 where
  tokens : HashMap Text Text → RtcFileListResponse
  pair : Text → RtcFileListResponse
  declined invalid_signature : RtcFileListResponse

pub data RtcPairResponse : Type 0 where
  paired : Text → RtcPairResponse
  pair_declined invalid_signature : RtcPairResponse

-- serde_json at `RTCNonceMessage`, `RTCTokenRequest`, `RTCPinMessage` (each a text) and the other
-- messages. The order of a `HashMap` is kept.
pub record Json : Type 0 where
  pub nonce : Codec Text
  pub token_request : Codec Text
  pub token_response : Codec RtcTokenResponse
  pub pin : Codec Pin
  pub pin_receiving : Codec RtcPinReceivingResponse
  pub pin_sending : Codec RtcPinSendingResponse
  pub file_list : Codec RtcFileListResponse
  pub pair : Codec RtcPairResponse
  pub header : Codec RtcSendFileHeaderRequest
  -- Only written here.
  pub encode_response : RtcSendFileResponse → Bytes
