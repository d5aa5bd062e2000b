-- ===== src/Http/Nonce.antt =====
-- server/controller/v3.rs `nonce_exchange`, server/error.rs, and client/v3.rs `nonce`.
use magic_share.Base.{
  ℕ, ◌≡◌, refl, ◌⊎◌, inl, inr, true, Option, some, none, codes, eqb, if◌then◌else◌, Option-cases,
  Bool-cases, Result, ok, err,
}
use magic_share.Crypto.{Bytes, Text, Base64, validate_nonce}
use magic_share.Http.{LruCache, JsonText, AppError, Response, RequestClientInfo, identifier}

-- `NonceRequest`, `NonceResponse` and `ErrorResponse` as JSON.
module _ (lru : LruCache) (b64 : Base64) (request_json response_json error_json : JsonText) where
  -- The nonces by the identifier of the other device: those it sent, and those made for it.
  pub record NonceMaps : Type 0 where
    pub received_nonce_map : lru.Cache
    pub generated_nonce_map : lru.Cache

  -- `AppError::to_response`; `describe` prints `Status code: ..`.
  unfoldable pub to_response : (ℕ → Text) → AppError → Response
  to_response describe AppError.hyper = record {
    status = 500;
    body = error_json.encode (codes "Internal server error");
  }
  to_response describe (AppError.status code) = record {
    status = code;
    body = error_json.encode (describe code);
  }
  to_response describe (AppError.bad_request message) = record {
    status = 400;
    body = error_json.encode message;
  }

  abbrev pub keep : Text → Bytes → Bytes → NonceMaps → NonceMaps
  keep key nonce new_nonce s = record {
    received_nonce_map = lru.put s.received_nonce_map key nonce;
    generated_nonce_map = lru.put s.generated_nonce_map key new_nonce;
  }

  abbrev Reply : Type 0
  Reply = (AppError ⊎ Text) × NonceMaps

  exchange : Text → Bytes → NonceMaps → Option Bytes → Reply
  exchange key new_nonce s none = (inl (AppError.bad_request (codes "Invalid nonce format")), s)
  exchange key new_nonce s (some nonce) =
      if validate_nonce nonce
      then (inr (b64.encode new_nonce), keep key nonce new_nonce s)
      else (inl (AppError.bad_request (codes "Invalid nonce")), s)

  nonce_exchange_payload : Text → Bytes → NonceMaps → Option Text → Reply
  unfolding exchange
  nonce_exchange_payload key new_nonce s none =
      (inl (AppError.bad_request (codes "Invalid JSON body")), s)
  nonce_exchange_payload key new_nonce s (some payload) =
      exchange key new_nonce s (b64.decode payload)

  -- `new_nonce` is what `generate_nonce` returns.
  nonce_exchange : RequestClientInfo → Bytes → Bytes → NonceMaps → Reply
  unfolding nonce_exchange_payload
  nonce_exchange info new_nonce body s =
      nonce_exchange_payload (identifier info) new_nonce s (request_json.decode body)

  respond : (ℕ → Text) → Reply → Response × NonceMaps
  unfolding to_response
  respond describe (inl e, s) = (to_response describe e, s)
  respond describe (inr nonce, s) = (record { status = 200; body = response_json.encode nonce }, s)

  -- The route `POST /api/localsend/v3/nonce`.
  pub serve_nonce :
      (ℕ → Text) → RequestClientInfo → Bytes → Bytes → NonceMaps → Response × NonceMaps
  unfolding nonce_exchange respond
  serve_nonce describe info new_nonce body s =
      respond describe (nonce_exchange info new_nonce body s)

  -- `nonce` of the client: what it posts, and what it does with the response of a server.
  pub nonce_request : Bytes → Bytes
  nonce_request generated_nonce = request_json.encode (b64.encode generated_nonce)

  save : Text → Bytes → NonceMaps → Text → Option Bytes → Result Text × NonceMaps
  save key generated_nonce s nonce none = (err "invalid base64", s)
  save key generated_nonce s nonce (some response_nonce) =
      (ok nonce, keep key response_nonce generated_nonce s)

  read_body : Text → Bytes → NonceMaps → Option Text → Result Text × NonceMaps
  unfolding save
  read_body key generated_nonce s none = (err "error decoding response body", s)
  read_body key generated_nonce s (some nonce) = save key generated_nonce s nonce (b64.decode nonce)

  identified : Bytes → NonceMaps → Response → Option Text → Result Text × NonceMaps
  unfolding read_body
  identified generated_nonce s res none = (err "no identifier", s)
  identified generated_nonce s res (some key) =
      read_body key generated_nonce s (response_json.decode res.body)

  -- The server's identifier is `none` where `to_identifier` fails.
  pub nonce_response : Option Text → Bytes → Response → NonceMaps → Result Text × NonceMaps
  unfolding identified
  nonce_response remote_key generated_nonce res s =
      if eqb res.status 200 then identified generated_nonce s res remote_key else (err "status", s)

  -- An exchange of a valid nonce with a server that can be identified succeeds, and afterwards
  -- each side has the other's nonce as received and its own as generated, under the identifier of
  -- the other.
  pub nonce_agreement :
      (describe : ℕ → Text) (info : RequestClientInfo) (server_key : Text) (mine theirs : Bytes)
      (client server : NonceMaps)
      → validate_nonce mine ≡ true
      → let (res, server') = serve_nonce describe info theirs (nonce_request mine) server in
        let (got, client') = nonce_response (some server_key) mine res client in
        (got ≡ ok (b64.encode theirs))
        × (lru.get server'.received_nonce_map (identifier info) ≡ some mine)
        × (lru.get server'.generated_nonce_map (identifier info) ≡ some theirs)
        × (lru.get client'.received_nonce_map server_key ≡ some theirs)
        × (lru.get client'.generated_nonce_map server_key ≡ some mine)
  unfolding serve_nonce nonce_request nonce_response
  nonce_agreement describe info server_key mine theirs client server valid =
      rw
        (
          request_json.decode-encode (b64.encode mine),
          b64.decode-encode mine,
          valid,
          response_json.decode-encode (b64.encode theirs),
          b64.decode-encode theirs,
        )
        (refl, lru.get-put _ _ _, lru.get-put _ _ _, lru.get-put _ _ _, lru.get-put _ _ _)

  -- For any body, the server either answers 400 and keeps its nonces as they are, or the body
  -- carries a nonce of a valid length, and it answers 200 and keeps this nonce and its new one
  -- under the client's identifier.
  pub serve_nonce_cases :
      (describe : ℕ → Text) (info : RequestClientInfo) (new_nonce body : Bytes) (s : NonceMaps)
      → let (res, s') = serve_nonce describe info new_nonce body s in
        ((res.status ≡ 400) × (s' ≡ s))
        ⊎ ((payload : Text) × (nonce : Bytes) × (request_json.decode body ≡ some payload)
            × (b64.decode payload ≡ some nonce)
            × (validate_nonce nonce ≡ true)
            × (res ≡ record { status = 200; body = response_json.encode (b64.encode new_nonce) })
            × (s' ≡ keep (identifier info) nonce new_nonce s))
  unfolding serve_nonce
  serve_nonce_cases describe info new_nonce body s =
      elim (Option-cases (request_json.decode body)) [
        | inl d ↦ rw d (inl (refl, refl))
        | inr (payload, d) ↦ elim (Option-cases (b64.decode payload)) [
          | inl e ↦ rw (d, e) (inl (refl, refl))
          | inr (nonce, e) ↦ elim (Bool-cases (validate_nonce nonce)) [
            | inl v ↦ rw (d, e, v) (inr (payload, nonce, refl, e, v, refl, refl))
            | inr v ↦ rw (d, e, v) (inl (refl, refl))
          ]
        ]
      ]
