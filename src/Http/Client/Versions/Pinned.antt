-- ===== src/Http/Client/Versions/Pinned.antt =====
-- client/mod.rs `prepare_upload`: what a call with an expected key has seen, in either version.
use magic_share.Base.{
  ℕ, ◌<◌, ◌≡◌, refl, ap, sym, ◌∙◌, Bool, true, false, Option, none, some, eqb, leb, leb→lt,
  if◌then◌else◌,
}
use magic_share.Crypto.{Text}
use magic_share.Crypto.Cert.{X509}
use magic_share.Http.Messages.{
  ProtocolType, PrepareUploadRequestDto, PrepareUploadResponseDto, PrepareUploadResult,
  prepare_upload_request_v2,
}
use magic_share.Http.Url.{Digits}
use magic_share.Http.Reqwest.{ClientError, success, ◌>>=◌, or_fail, Request, Reply, Messages}
use magic_share.Http.Client.{perform, verify_if_https, into_error, prepare_upload}
use magic_share.Http.Client.Pinned.{
  IsPinned, prepare_upload-IsPinned, https-IsPinned, >>=-eq-success, or_fail-success,
}
use magic_share.Http.Client.Versions.{
  LsHttpClientVersion, any_prepare_upload, prepare_upload_v3, read_prepared_v3,
}

success_injective : {A : Type 0} {a b : A} → success a ≡ success b → a ≡ b
success_injective p = cc

module _ (x : X509) (digits : Digits) (json : Messages) (send : Request → Option Reply) where
  read_branch :
      (res : Reply) (large empty : Bool) (body : Option PrepareUploadResponseDto)
      {r : PrepareUploadResult}
      → (if large
          then into_error x digits json send res
          else if empty
          then success record { status_code = res.status; response = none }
          else (or_fail body ClientError.reqwest >>= λ b.
              success record { status_code = res.status; response = some b }))
        ≡ success r
      → (large ≡ false) × (r.status_code ≡ res.status)
  unfolding into_error
  read_branch res true empty body p = cc
  read_branch res false true body p = (refl, cc)
  read_branch res false false none p = cc
  read_branch res false false (some b) p = (refl, cc)

  -- One request, and the connection and status of its response.
  pub IsAnswered : Text → PrepareUploadResult → Type 0
  IsAnswered key r =
      (req : Request) × (res : Reply) × (send req ≡ some res)
      × IsPinned x digits json send res key
      × (res.status < 400)
      × (r.status_code ≡ res.status)

  prepare_upload_v3-IsAnswered :
      (ip : Text) (port : ℕ) (key : Text) (payload : PrepareUploadRequestDto)
      {r : PrepareUploadResult}
      → prepare_upload_v3 x digits json send ProtocolType.https ip port (some key) payload
        ≡ success r
      → IsAnswered key r
  unfolding prepare_upload_v3 perform read_prepared_v3 IsAnswered
  prepare_upload_v3-IsAnswered ip port key payload p =
      let (res, sent, p₁) = >>=-eq-success (or_fail _ ClientError.reqwest) _ p in
      let (_, checked, p₂) =
        >>=-eq-success (verify_if_https x digits json send ProtocolType.https res (some key)) _
          p₁ in
      let (small, same) = read_branch res (leb 400 res.status) (eqb res.status 204) _ p₂ in
      (
        _,
        res,
        or_fail-success _ _ sent,
        https-IsPinned x digits json send res key checked,
        leb→lt 400 res.status small,
        same,
      )

  -- In either version: if a call of `prepare_upload` over HTTPS with an expected key returns a
  -- result, then a request of it was answered with a status below 400, which is the status of the
  -- result, over a connection whose certificate is valid, signed, and has the expected key.
  pub any_prepare_upload-IsAnswered :
      (version : LsHttpClientVersion) (ip : Text) (port : ℕ) (key : Text)
      (payload : PrepareUploadRequestDto) (pin : Option Text) {r : PrepareUploadResult}
      → any_prepare_upload x digits json send version ProtocolType.https ip port
          (some key)
          payload
          pin
        ≡ success r
      → IsAnswered key r
  unfolding any_prepare_upload IsAnswered
  any_prepare_upload-IsAnswered LsHttpClientVersion.v2 ip port key payload pin p =
      let (r₂, first, p₁) =
        >>=-eq-success
          (prepare_upload x digits json send ProtocolType.https ip port (some key)
            (prepare_upload_request_v2 payload) pin)
          _ p in
      let (res, sent, pinned, below, same) =
        prepare_upload-IsPinned x digits json send ip port key (prepare_upload_request_v2 payload)
          pin first in
      (_, res, sent, pinned, below, sym (ap (λ v. v.status_code) (success_injective p₁)) ∙ same)
  any_prepare_upload-IsAnswered LsHttpClientVersion.v3 ip port key payload pin p =
      prepare_upload_v3-IsAnswered ip port key payload p
