-- ===== src/Http/Client/Pinned.antt =====
-- core/src/http/client: what a call with an expected key has seen of the other device.
use magic_share.Base.{
  ℕ, ◌<◌, ◌≡◌, refl, ap, ◌∙◌, Bool, true, false, Option, none, some, codes, eqb, leb, leb→lt,
  if◌then◌else◌, Result, ok, err,
}
use magic_share.Crypto.{Bytes, Text}
use magic_share.Crypto.Cert.{X509, Verified, verify_cert_from_der, verify_cert_sound}
use magic_share.Http.Messages.{
  ProtocolType, PrepareUploadRequestDtoV2, PrepareUploadResponseDtoV2, PrepareUploadResultV2,
}
use magic_share.Http.Routes.{Method}
use magic_share.Http.Url.{ApiVersion, Digits}
use magic_share.Http.Reqwest.{
  ClientError, Outcome, success, failure, ◌>>=◌, from_result, or_fail, Request, Reply, Messages,
}
use magic_share.Http.Client.{
  perform, verify_cert_from_res, verify_if_https, into_error, url, read_prepared, prepare_upload,
  pin_params,
}

pub >>=-eq-success :
    {A B : Type 0} (first : Outcome A) (rest : A → Outcome B) {b : B}
    → (first >>= rest) ≡ success b
    → (a : A) × (first ≡ success a) × (rest a ≡ success b)
>>=-eq-success (failure e) rest p = cc
>>=-eq-success (success a) rest p = (a, refl, p)

pub or_fail-success :
    {A : Type 0} (o : Option A) (e : ClientError) {a : A} → or_fail o e ≡ success a → o ≡ some a
or_fail-success none e p = cc
or_fail-success (some a) e p = cc

from_result-success : {A : Type 0} (r : Result A) {a : A} → from_result r ≡ success a → r ≡ ok a
from_result-success (ok a) p = cc
from_result-success (err e) p = cc

module _ (x : X509) (digits : Digits) (json : Messages) (send : Request → Option Reply) where
  -- The connection of a response had a certificate that was verified with an expected key.
  pub IsPinned : Reply → Text → Type 0
  IsPinned res key = (cert : Bytes) × (res.tls_info ≡ some (some cert)) × Verified x cert key

  verified :
      (res : Reply) (key : Text) {k : Text}
      → verify_cert_from_res x digits json send res (some key) ≡ success k
      → IsPinned res key
  unfolding verify_cert_from_res IsPinned
  verified res key p =
      let (info, has_info, p₁) = >>=-eq-success (or_fail res.tls_info _) _ p in
      let (cert, has_cert, p₂) = >>=-eq-success (or_fail info _) _ p₁ in
      let (_, checked, _) =
        >>=-eq-success (from_result (verify_cert_from_der x cert (some key))) _ p₂ in
      (
        cert,
        or_fail-success _ _ has_info ∙ ap some (or_fail-success _ _ has_cert),
        verify_cert_sound x cert key (from_result-success _ checked),
      )

  pub https-IsPinned :
      (res : Reply) (key : Text)
      → verify_if_https x digits json send ProtocolType.https res (some key) ≡ success tt
      → IsPinned res key
  unfolding verify_if_https
  https-IsPinned res key p =
      let (k, v, _) = >>=-eq-success (verify_cert_from_res x digits json send res (some key)) _ p in
      verified res key v

  read_branch :
      (res : Reply) (large empty : Bool) (body : Option PrepareUploadResponseDtoV2)
      {r : PrepareUploadResultV2}
      → (if large
          then into_error x digits json send res
          else if empty
          then success record { status_code = res.status; response = none }
          else (or_fail body ClientError.reqwest >>= λ b.
              success record { status_code = res.status; response = some b }))
        ≡ success r
      → (large ≡ false) × (r.status_code ≡ res.status)
  unfolding into_error
  read_branch res true empty body p = cc
  read_branch res false true body p = (refl, cc)
  read_branch res false false none p = cc
  read_branch res false false (some b) p = (refl, cc)

  read-success :
      (res : Reply) {r : PrepareUploadResultV2}
      → read_prepared x digits json send res ≡ success r
      → (res.status < 400) × (r.status_code ≡ res.status)
  unfolding read_prepared
  read-success res p =
      let (small, same) = read_branch res (leb 400 res.status) (eqb res.status 204) _ p in
      (leb→lt 400 res.status small, same)

  -- If a call of `prepare_upload` over HTTPS with an expected key returns a result, then its one
  -- request was answered with a status below 400, which is the status of the result, over a
  -- connection whose certificate is valid, signed, and has the expected key.
  pub prepare_upload-IsPinned :
      (ip : Text) (port : ℕ) (key : Text) (payload : PrepareUploadRequestDtoV2) (pin : Option Text)
      {r : PrepareUploadResultV2}
      → prepare_upload x digits json send ProtocolType.https ip port (some key) payload pin
        ≡ success r
      → (res : Reply) × (send record {
        method = Method.post;
        url =
            url x digits json send ApiVersion.v2 ProtocolType.https ip port
              (codes "/prepare-upload")
              (pin_params x digits json send pin);
        body = json.prepare_upload.encode payload;
      }
          ≡ some res)
        × IsPinned res key
        × (res.status < 400)
        × (r.status_code ≡ res.status)
  unfolding prepare_upload perform
  prepare_upload-IsPinned ip port key payload pin p =
      let (res, sent, p₁) = >>=-eq-success (or_fail _ ClientError.reqwest) _ p in
      let (_, checked, p₂) =
        >>=-eq-success (verify_if_https x digits json send ProtocolType.https res (some key)) _
          p₁ in
      let (below, same) = read-success res p₂ in
      (res, or_fail-success _ _ sent, https-IsPinned res key checked, below, same)
