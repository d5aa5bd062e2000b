-- ===== src/Http/Client.antt =====
-- core/src/http/client/v2.rs with `verify_cert_from_res` and `into_error` of client/mod.rs, and
-- `register` of client/v3.rs.
pub mod Pinned
pub mod Register
pub mod Versions
pub mod Download
mod Examples
use magic_share.Base.{
  ℕ, ◌≡◌, refl, Bool, true, false, Option, none, some, List, [], ◌∷◌, ◌++◌, String, codes, concat,
  eqb, leb, if◌then◌else◌, Result, ok, err,
}
use magic_share.Rtc.Io.{Codec}
use magic_share.Crypto.{Bytes, Text}
use magic_share.Crypto.Cert.{X509, verify_cert_from_der, public_key_from_cert_der}
use magic_share.Http.Messages.{
  ProtocolType, RegisterDto, RegisterDtoV2, RegisterResponseDto, RegisterResponseDtoV2,
  PrepareUploadRequestDtoV2, PrepareUploadResponseDtoV2, PrepareUploadResultV2, InfoResponseDtoV2,
  PrepareDownloadResponseDtoV2,
}
use magic_share.Http.Routes.{Method}
use magic_share.Http.Url.{ApiVersion, TargetUrl, Digits, to_string}
use magic_share.Http.Reqwest.{
  ClientError, Outcome, success, failure, ◌>>=◌, from_result, or_fail, Request, Reply, Messages,
  ResultWithPublicKey, is_https, as_str, not_empty, unwrap_or,
}

-- `send` is reqwest: what a request is answered with, or nothing.
module _ (x : X509) (digits : Digits) (json : Messages) (send : Request → Option Reply) where
  unfoldable pub perform : Request → Outcome Reply
  perform req = or_fail (send req) ClientError.reqwest

  unfoldable pub key_of : Bytes → Option Text → Outcome Text
  key_of cert (some key) = success key
  key_of cert none = from_result (public_key_from_cert_der x cert)

  unfoldable pub verify_cert_from_res : Reply → Option Text → Outcome Text
  verify_cert_from_res res public_key =
      or_fail res.tls_info (ClientError.other "TLS info not found") >>= λ info.
      or_fail info (ClientError.other "Certificate not found") >>= λ cert.
      from_result (verify_cert_from_der x cert public_key) >>= λ _. key_of cert public_key

  unfoldable pub verify_if_https : ProtocolType → Reply → Option Text → Outcome (Unit {0})
  verify_if_https protocol res public_key =
      if is_https protocol
      then (verify_cert_from_res res public_key >>= λ _. success tt)
      else success tt

  unfoldable pub into_error : {A : Type 0} → Reply → Outcome A
  into_error res = failure (
      ClientError.status_code res.status
        (not_empty (unwrap_or (json.error_response res.body) res.body)))

  abbrev pub url : ApiVersion → ProtocolType → Text → ℕ → Text → List (Text × Text) → Text
  url version protocol ip port path params = to_string digits record {
    version = version;
    protocol = as_str protocol;
    host = ip;
    port = port;
    path = path;
    params = params;
  }

  abbrev pub json_of : {A : Type 0} → Codec A → Reply → Outcome A
  json_of codec res = or_fail (codec.decode res.body) ClientError.reqwest

  unfoldable pub key_if_https : ProtocolType → Reply → Outcome (Option Text)
  key_if_https ProtocolType.https res = verify_cert_from_res res none >>= λ key. success (some key)
  key_if_https ProtocolType.http res = success none

  unfoldable pub register :
      ProtocolType → Text → ℕ → RegisterDtoV2 → Outcome (ResultWithPublicKey RegisterResponseDtoV2)
  register protocol ip port payload =
      perform record {
        method = Method.post;
        url = url ApiVersion.v2 protocol ip port (codes "/register") [];
        body = json.register_v2.encode payload;
      }
      >>= λ res.
          if eqb res.status 200
          then (key_if_https protocol res >>= λ key.
              json_of json.register_response_v2 res >>= λ body.
              success record { public_key = key; body = body })
          else into_error res

  -- Client/v3.rs: the status is not looked at.
  unfoldable pub register_v3 :
      ProtocolType → Text → ℕ → RegisterDto → Outcome (ResultWithPublicKey RegisterResponseDto)
  register_v3 protocol ip port payload =
      perform record {
        method = Method.post;
        url = url ApiVersion.v3 protocol ip port (codes "/register") [];
        body = json.register.encode payload;
      }
      >>= λ res. key_if_https protocol res >>= λ key. json_of json.register_response res >>= λ body.
          success record { public_key = key; body = body }

  abbrev pub pin_params : Option Text → List (Text × Text)
  pin_params none = []
  pin_params (some pin) = (codes "pin", pin) ∷ []

  unfoldable pub read_prepared : Reply → Outcome PrepareUploadResultV2
  read_prepared res =
      if leb 400 res.status
      then into_error res
      else if eqb res.status 204
      then success record { status_code = res.status; response = none }
      else (json_of json.prepare_upload_response res >>= λ body.
          success record { status_code = res.status; response = some body })

  unfoldable pub prepare_upload :
      ProtocolType
      → Text
      → ℕ
      → Option Text
      → PrepareUploadRequestDtoV2
      → Option Text
      → Outcome PrepareUploadResultV2
  prepare_upload protocol ip port public_key payload pin =
      perform record {
        method = Method.post;
        url = url ApiVersion.v2 protocol ip port (codes "/prepare-upload") (pin_params pin);
        body = json.prepare_upload.encode payload;
      }
      >>= λ res. verify_if_https protocol res public_key >>= λ _. read_prepared res

  abbrev pub only_ok : {A : Type 0} → Reply → Outcome A → Outcome A
  only_ok res rest = if eqb res.status 200 then rest else into_error res

  abbrev pub upload_params : Text → Text → Text → List (Text × Text)
  upload_params session_id file_id token =
      (codes "sessionId", session_id) ∷ (codes "fileId", file_id) ∷ (codes "token", token) ∷ []

  -- The body is the stream of the chunks.
  unfoldable pub upload :
      ProtocolType → Text → ℕ → Option Text → Text → Text → Text → List Bytes → Outcome (Unit {0})
  upload protocol ip port public_key session_id file_id token binary =
      perform record {
        method = Method.post;
        url =
            url ApiVersion.v2 protocol ip port (codes "/upload")
              (upload_params session_id file_id token);
        body = concat binary;
      }
      >>= λ res. verify_if_https protocol res public_key >>= λ _. only_ok res (success tt)

  unfoldable pub cancel : ProtocolType → Text → ℕ → Text → Outcome (Unit {0})
  cancel protocol ip port session_id =
      perform record {
        method = Method.post;
        url =
            url ApiVersion.v2 protocol ip port (codes "/cancel")
              ((codes "sessionId", session_id) ∷ []);
        body = [];
      }
      >>= λ _. success tt

  unfoldable pub info : ProtocolType → Text → ℕ → Outcome InfoResponseDtoV2
  info protocol ip port =
      perform record {
        method = Method.get;
        url = url ApiVersion.v2 protocol ip port (codes "/info") [];
        body = [];
      }
      >>= λ res. only_ok res (json_of json.info_response res)

  abbrev pub session_params : Option Text → List (Text × Text)
  session_params none = []
  session_params (some session_id) = (codes "sessionId", session_id) ∷ []

  unfoldable pub prepare_download :
      ProtocolType → Text → ℕ → Option Text → Option Text → Outcome PrepareDownloadResponseDtoV2
  prepare_download protocol ip port session_id pin =
      perform record {
        method = Method.post;
        url =
            url ApiVersion.v2 protocol ip port (codes "/prepare-download")
              (session_params session_id ++ pin_params pin);
        body = [];
      }
      >>= λ res. only_ok res (json_of json.prepare_download_response res)

  unfoldable pub download : ProtocolType → Text → ℕ → Text → Text → Outcome Reply
  download protocol ip port session_id file_id =
      perform record {
        method = Method.get;
        url =
            url ApiVersion.v2 protocol ip port (codes "/download")
              ((codes "sessionId", session_id) ∷ (codes "fileId", file_id) ∷ []);
        body = [];
      }
      >>= λ res. only_ok res (success res)
