-- ===== src/Http/Routes.antt =====
-- core/src/http/server/mod.rs `handle_request`, and `register` of server/controller/v2.rs and v3.rs.
pub mod Cases
use magic_share.Base.{
  ℕ, Bool, true, false, Option, none, some, List, String, codes, number_eq, list_eq, ◌==◌,
  if◌then◌else◌, Result, ok, err,
}
use magic_share.Signaling.{DeviceType}
use magic_share.Rtc.Io.{Codec}
use magic_share.Crypto.{Bytes, Text, Base64}
use magic_share.Http.{LruCache, JsonText, AppError, Response, RequestClientInfo}
use magic_share.Http.Messages.{RegisterDto, RegisterResponseDto}
use magic_share.Http.Nonce.{NonceMaps, serve_nonce, to_response}

pub data Method : Type 0 where
  get post other : Method

-- `ClientInfo` of core/src/http/state.rs
pub record ServerInfo : Type 0 where
  pub alias : Text
  pub version : Text
  pub device_model : Option Text
  pub device_type : Option DeviceType
  pub token : Text

pub data Route : Type 0 where
  v2_register v2_prepare_upload v2_upload v2_cancel v3_nonce v3_register not_found : Route

unfoldable pub post_route : Text → Route
post_route path =
    if path == codes "/api/localsend/v2/register"
    then Route.v2_register
    else if path == codes "/api/localsend/v2/prepare-upload"
    then Route.v2_prepare_upload
    else if path == codes "/api/localsend/v2/upload"
    then Route.v2_upload
    else if path == codes "/api/localsend/v2/cancel"
    then Route.v2_cancel
    else if path == codes "/api/localsend/v3/nonce"
    then Route.v3_nonce
    else if path == codes "/api/localsend/v3/register"
    then Route.v3_register
    else Route.not_found

unfoldable pub route_of : Method → Text → Route
route_of Method.post path = post_route path
route_of _ path = Route.not_found

module _ (lru : LruCache) (b64 : Base64) (request_json response_json error_json : JsonText)
    (register_json : Codec RegisterDto) (info_json : Codec RegisterResponseDto)
    (describe : ℕ → Text) where
  pub record AppState : Type 0 where
    pub info : ServerInfo
    pub has_web : Bool
    pub nonces : NonceMaps lru b64 request_json response_json error_json

  abbrev Reply : Type 0
  Reply = Response × AppState

  abbrev pub refuse : AppError → AppState → Reply
  refuse e s = (to_response lru b64 request_json response_json error_json describe e, s)

  abbrev pub own_info : AppState → RegisterResponseDto
  own_info s = record {
    alias = s.info.alias;
    version = s.info.version;
    device_model = s.info.device_model;
    device_type = s.info.device_type;
    token = s.info.token;
    has_web_interface = s.has_web;
  }

  unfoldable pub registered : Option RegisterDto → AppState → Reply
  registered none s = refuse (AppError.bad_request (codes "Invalid JSON body")) s
  registered (some payload) s = (record { status = 200; body = info_json.encode (own_info s) }, s)

  -- `register` of controller/v3.rs; that of controller/v2.rs is the same code.
  unfoldable pub register : Bytes → AppState → Reply
  register body s = registered (register_json.decode body) s

  unfoldable pub if_legacy : Bool → Bytes → AppState → Reply
  if_legacy legacy_enabled body s =
      if legacy_enabled then register body s else refuse (AppError.status 404) s

  unfoldable pub exchange_nonce : RequestClientInfo → Bytes → Bytes → AppState → Reply
  exchange_nonce client new_nonce body s =
      let (res, nonces) =
        serve_nonce lru b64 request_json response_json error_json describe client new_nonce body
          s.nonces in
      (res, record s { nonces = nonces })

  unfoldable pub dispatch : Bool → RequestClientInfo → Bytes → Bytes → AppState → Route → Reply
  dispatch legacy client new_nonce body s Route.v2_register = if_legacy legacy body s
  dispatch legacy client new_nonce body s Route.v2_prepare_upload = if_legacy legacy body s
  dispatch legacy client new_nonce body s Route.v2_upload = if_legacy legacy body s
  dispatch legacy client new_nonce body s Route.v2_cancel = if_legacy legacy body s
  dispatch legacy client new_nonce body s Route.v3_nonce = exchange_nonce client new_nonce body s
  dispatch legacy client new_nonce body s Route.v3_register = register body s
  dispatch legacy client new_nonce body s Route.not_found =
      (record { status = 404; body = codes "" }, s)

  -- `new_nonce` is what `generate_nonce` returns if it is called.
  unfoldable pub handle_request :
      Bool → RequestClientInfo → Bytes → Method → Text → Bytes → AppState → Reply
  handle_request legacy client new_nonce method path body s =
      dispatch legacy client new_nonce body s (route_of method path)
