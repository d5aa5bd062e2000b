-- ===== src/Http/Client/Versions.antt =====
-- core/src/http/client/v3.rs, and the choice between the versions in client/mod.rs.
pub mod Pinned
use magic_share.Base.{
  ℕ, Bool, true, false, Option, none, some, List, [], ◌∷◌, codes, concat, eqb, leb, if◌then◌else◌,
}
use magic_share.Crypto.{Bytes, Text}
use magic_share.Crypto.Cert.{X509}
use magic_share.Http.Messages.{
  ProtocolType, RegisterDto, RegisterResponseDto, PrepareUploadRequestDto, PrepareUploadResult,
  register_v2, register_response, prepare_upload_request_v2, prepare_upload_result,
}
use magic_share.Http.Routes.{Method}
use magic_share.Http.Url.{ApiVersion, Digits}
use magic_share.Http.Reqwest.{
  Outcome, success, ◌>>=◌, Request, Reply, Messages, ResultWithPublicKey,
}
use magic_share.Http.Client.{
  perform, verify_if_https, into_error, url, json_of, register, register_v3, prepare_upload, upload,
  upload_params, only_ok, cancel,
}

pub data LsHttpClientVersion : Type 0 where
  v2 v3 : LsHttpClientVersion

module _ (x : X509) (digits : Digits) (json : Messages) (send : Request → Option Reply) where
  unfoldable pub read_prepared_v3 : Reply → Outcome PrepareUploadResult
  read_prepared_v3 res =
      if leb 400 res.status
      then into_error x digits json send res
      else if eqb res.status 204
      then success record { status_code = res.status; response = none }
      else (json_of x digits json send json.prepare_upload_response_v3 res >>= λ body.
          success record { status_code = res.status; response = some body })

  unfoldable pub prepare_upload_v3 :
      ProtocolType → Text → ℕ → Option Text → PrepareUploadRequestDto → Outcome PrepareUploadResult
  prepare_upload_v3 protocol ip port public_key payload =
      perform x digits json send record {
        method = Method.post;
        url = url x digits json send ApiVersion.v3 protocol ip port (codes "/prepare-upload") [];
        body = json.prepare_upload_v3.encode payload;
      }
      >>= λ res.
          verify_if_https x digits json send protocol res public_key >>= λ _. read_prepared_v3 res

  unfoldable pub upload_v3 :
      ProtocolType → Text → ℕ → Option Text → Text → Text → Text → List Bytes → Outcome (Unit {0})
  upload_v3 protocol ip port public_key session_id file_id token binary =
      perform x digits json send record {
        method = Method.post;
        url =
            url x digits json send ApiVersion.v3 protocol ip port (codes "/upload")
              (upload_params x digits json send session_id file_id token);
        body = concat binary;
      }
      >>= λ res. verify_if_https x digits json send protocol res public_key >>= λ _.
          only_ok x digits json send res (success tt)

  unfoldable pub cancel_v3 : ProtocolType → Text → ℕ → Text → Outcome (Unit {0})
  cancel_v3 protocol ip port session_id =
      perform x digits json send record {
        method = Method.post;
        url =
            url x digits json send ApiVersion.v3 protocol ip port (codes "/cancel")
              ((codes "sessionId", session_id) ∷ []);
        body = [];
      }
      >>= λ _. success tt

  -- `LsHttpClient::register`, and so on.
  unfoldable pub any_register :
      LsHttpClientVersion
      → ProtocolType
      → Text
      → ℕ
      → RegisterDto
      → Outcome (ResultWithPublicKey RegisterResponseDto)
  any_register LsHttpClientVersion.v2 protocol ip port payload =
      register x digits json send protocol ip port (register_v2 payload) >>= λ r.
      success record { public_key = r.public_key; body = register_response r.body }
  any_register LsHttpClientVersion.v3 protocol ip port payload =
      register_v3 x digits json send protocol ip port payload

  unfoldable pub any_prepare_upload :
      LsHttpClientVersion
      → ProtocolType
      → Text
      → ℕ
      → Option Text
      → PrepareUploadRequestDto
      → Option Text
      → Outcome PrepareUploadResult
  any_prepare_upload LsHttpClientVersion.v2 protocol ip port public_key payload pin =
      prepare_upload x digits json send protocol ip port public_key
        (prepare_upload_request_v2 payload) pin
      >>= λ r. success (prepare_upload_result r)
  any_prepare_upload LsHttpClientVersion.v3 protocol ip port public_key payload pin =
      prepare_upload_v3 protocol ip port public_key payload

  unfoldable pub any_upload :
      LsHttpClientVersion
      → ProtocolType
      → Text
      → ℕ
      → Option Text
      → Text
      → Text
      → Text
      → List Bytes
      → Outcome (Unit {0})
  any_upload LsHttpClientVersion.v2 = upload x digits json send
  any_upload LsHttpClientVersion.v3 = upload_v3

  unfoldable pub any_cancel :
      LsHttpClientVersion → ProtocolType → Text → ℕ → Text → Outcome (Unit {0})
  any_cancel LsHttpClientVersion.v2 = cancel x digits json send
  any_cancel LsHttpClientVersion.v3 = cancel_v3
