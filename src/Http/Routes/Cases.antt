-- ===== src/Http/Routes/Cases.antt =====
-- core/src/http/server/mod.rs `handle_request`: every request, on every path.
use magic_share.Base.{
  ℕ, ◌≡◌, refl, ap, ◌⊎◌, inl, inr, Bool, true, false, Option, none, some, ◌≢◌, sym, ◌∙◌, codes,
  number_eq, list_eq, ◌==◌, if◌then◌else◌, list_test_iff, Bool-cases,
}
use magic_share.Rtc.Io.{Codec}
use magic_share.Crypto.{Bytes, Text, Base64, validate_nonce}
use magic_share.Http.{LruCache, JsonText, Response, RequestClientInfo, identifier}
use magic_share.Http.Messages.{RegisterDto, RegisterResponseDto}
use magic_share.Http.Nonce.{to_response, serve_nonce_cases, keep}
use magic_share.Http.Routes.{
  Method, Route, route_of, post_route, AppState, own_info, registered, register, if_legacy,
  exchange_nonce, dispatch, handle_request,
}

-- The four paths of the second version.
abbrev pub IsV2 : Text → Type 0
IsV2 path =
    (path ≡ codes "/api/localsend/v2/register")
    ⊎ ((path ≡ codes "/api/localsend/v2/prepare-upload")
        ⊎ ((path ≡ codes "/api/localsend/v2/upload") ⊎ (path ≡ codes "/api/localsend/v2/cancel")))

abbrev nonce_path : Text
nonce_path = codes "/api/localsend/v3/nonce"

-- The paths on which a client registers.
abbrev pub Registers : Bool → Text → Type 0
Registers legacy path = (path ≡ codes "/api/localsend/v3/register") ⊎ (IsV2 path × (legacy ≡ true))

abbrev pub IsUnlisted : Text → Type 0
IsUnlisted path = (¬ IsV2 path) × (path ≢ nonce_path) × (path ≢ codes "/api/localsend/v3/register")

-- The path of each route.
abbrev At : Route → Text → Type 0
At Route.v2_register path = path ≡ codes "/api/localsend/v2/register"
At Route.v2_prepare_upload path = path ≡ codes "/api/localsend/v2/prepare-upload"
At Route.v2_upload path = path ≡ codes "/api/localsend/v2/upload"
At Route.v2_cancel path = path ≡ codes "/api/localsend/v2/cancel"
At Route.v3_nonce path = path ≡ nonce_path
At Route.v3_register path = path ≡ codes "/api/localsend/v3/register"
At Route.not_found path = IsUnlisted path

-- One more path of the table.
at_path :
    (path known : Text) (route : Route) (P : Route → Type 0) (rest : Route)
    → (path ≡ known → P route)
    → (path ≢ known → P rest)
    → P (if path == known then route else rest)
at_path path known route P rest here there = elim (Bool-cases (path == known)) [
  | inl t ↦ rw t (here ((list_test_iff path known).0 t))
  | inr t ↦
      rw t (there (λ e. let same : true ≡ false = sym ((list_test_iff path known).1 e) ∙ t in cc))
]

post_route-At : (path : Text) → At (post_route path) path
unfolding post_route
post_route-At path =
    at_path path _ Route.v2_register (λ r. At r path) _ (λ e. e)
      λ n₁.
        at_path path _ Route.v2_prepare_upload (λ r. At r path) _ (λ e. e)
          λ n₂.
            at_path path _ Route.v2_upload (λ r. At r path) _ (λ e. e)
              λ n₃.
                at_path path _ Route.v2_cancel (λ r. At r path) _ (λ e. e)
                  λ n₄.
                    at_path path _ Route.v3_nonce (λ r. At r path) _ (λ e. e)
                      λ n₅.
                        at_path path _ Route.v3_register (λ r. At r path) Route.not_found (λ e. e)
                          λ n₆. (
                            λ v. elim v [
                              | inl e ↦ n₁ e
                              | inr w ↦ elim w [
                                | inl e ↦ n₂ e
                                | inr u ↦ elim u [ inl e ↦ n₃ e | inr e ↦ n₄ e ]
                              ]
                            ],
                            n₅,
                            n₆,
                          )

module _ (lru : LruCache) (b64 : Base64) (request_json response_json error_json : JsonText)
    (register_json : Codec RegisterDto) (info_json : Codec RegisterResponseDto)
    (describe : ℕ → Text) where
  abbrev State : Type 0
  State = AppState lru b64 request_json response_json error_json register_json info_json describe

  abbrev info_response : State → Bytes
  info_response s =
      info_json.encode
        (own_info lru b64 request_json response_json error_json register_json info_json describe s)

  abbrev kept : RequestClientInfo → Bytes → Bytes → State → State
  kept client nonce new_nonce s = record s {
    nonces =
        keep lru b64 request_json response_json error_json (identifier client) nonce new_nonce
          s.nonces;
  }

  -- What became of a request: nothing is found where the method is not POST, the path is none of
  -- the six, or is one of the second version's that are turned off; on the other paths to register
  -- it was refused or answered with the server's own information; and on the path of the exchange
  -- it was refused, or nonces were exchanged under the client's identifier.
  pub data Handled (legacy : Bool) (client : RequestClientInfo) (new_nonce body : Bytes)
      (method : Method) (path : Text) (s : State) (res : Response) (s' : State) : Type 0 where
    unknown :
        (method ≢ Method.post) ⊎ ((IsV2 path × (legacy ≡ false)) ⊎ IsUnlisted path)
        → res.status ≡ 404
        → s' ≡ s
        → Handled legacy client new_nonce body method path s res s'
    malformed :
        method ≡ Method.post
        → Registers legacy path
        → register_json.decode body ≡ none
        → res.status ≡ 400
        → s' ≡ s
        → Handled legacy client new_nonce body method path s res s'
    informed :
        (payload : RegisterDto)
        → method ≡ Method.post
        → Registers legacy path
        → register_json.decode body ≡ some payload
        → res ≡ record { status = 200; body = info_response s }
        → s' ≡ s
        → Handled legacy client new_nonce body method path s res s'
    refused :
        method ≡ Method.post
        → path ≡ nonce_path
        → res.status ≡ 400
        → s' ≡ s
        → Handled legacy client new_nonce body method path s res s'
    exchanged :
        (payload : Text) (nonce : Bytes)
        → method ≡ Method.post
        → path ≡ nonce_path
        → request_json.decode body ≡ some payload
        → b64.decode payload ≡ some nonce
        → validate_nonce nonce ≡ true
        → res ≡ record { status = 200; body = response_json.encode (b64.encode new_nonce) }
        → s' ≡ kept client nonce new_nonce s
        → Handled legacy client new_nonce body method path s res s'

  module _ (legacy : Bool) (client : RequestClientInfo) (new_nonce body : Bytes) (path : Text)
      (s : State) where
    abbrev Reply : Type 0
    Reply = Response × State

    abbrev HandledOn : Reply → Type 0
    HandledOn r = Handled legacy client new_nonce body Method.post path s r.0 r.1

    registered-HandledOn :
        (o : Option RegisterDto)
        → register_json.decode body ≡ o
        → Registers legacy path
        → HandledOn (
            registered lru b64 request_json response_json error_json register_json info_json
              describe o s)
    unfolding registered to_response
    registered-HandledOn none d allowed = malformed refl allowed d refl refl
    registered-HandledOn (some payload) d allowed = informed payload refl allowed d refl refl

    legacy-HandledOn :
        (b : Bool)
        → legacy ≡ b
        → IsV2 path
        → HandledOn (
            if_legacy lru b64 request_json response_json error_json register_json info_json describe
              b body s)
    unfolding if_legacy register to_response
    legacy-HandledOn true l at = registered-HandledOn _ refl (inr (at, l))
    legacy-HandledOn false l at = unknown (inr (inl (at, l))) refl refl

    exchange-HandledOn :
        path ≡ nonce_path
        → HandledOn (
            exchange_nonce lru b64 request_json response_json error_json register_json info_json
              describe client new_nonce body s)
    unfolding exchange_nonce
    exchange-HandledOn at =
        elim (serve_nonce_cases lru b64 request_json response_json error_json describe client
          new_nonce body s.nonces) [
            | inl (st, same) ↦ refused refl at st (ap (λ n. record s { nonces = n }) same)
            | inr (payload, nonce, d, e, v, r, k) ↦
                exchanged payload nonce refl at d e v r (ap (λ n. record s { nonces = n }) k)
          ]

    dispatch-HandledOn :
        (route : Route)
        → At route path
        → HandledOn (
            dispatch lru b64 request_json response_json error_json register_json info_json describe
              legacy client new_nonce body s route)
    unfolding dispatch register
    dispatch-HandledOn Route.v2_register at = legacy-HandledOn legacy refl (inl at)
    dispatch-HandledOn Route.v2_prepare_upload at = legacy-HandledOn legacy refl (inr (inl at))
    dispatch-HandledOn Route.v2_upload at = legacy-HandledOn legacy refl (inr (inr (inl at)))
    dispatch-HandledOn Route.v2_cancel at = legacy-HandledOn legacy refl (inr (inr (inr at)))
    dispatch-HandledOn Route.v3_nonce at = exchange-HandledOn at
    dispatch-HandledOn Route.v3_register at = registered-HandledOn _ refl (inl at)
    dispatch-HandledOn Route.not_found at = unknown (inr (inr at)) refl refl

    -- A request with any method, on any path and with any body. It is answered 404 and changes
    -- nothing exactly on what is not served: a method other than POST, a path which is none of the
    -- six, and the four paths of the second version where legacy requests are turned off. On these
    -- four where they are allowed, and on the third version's register, it changes nothing, and is
    -- answered 400 where its body is no register message, and otherwise with the server's own
    -- information. On the path of the exchange of nonces it is answered 400 and changes nothing, or
    -- it brings a nonce of a valid length, and the nonces that are kept for this client are the
    -- only change.
    pub handle_request_cases :
        (method : Method)
        → let (res, s') =
            handle_request lru b64 request_json response_json error_json register_json info_json
              describe legacy client new_nonce method path body s in
          Handled legacy client new_nonce body method path s res s'
    unfolding handle_request route_of dispatch
    handle_request_cases Method.post = dispatch-HandledOn (post_route path) (post_route-At path)
    handle_request_cases Method.get = unknown (inl (λ e. cc)) refl refl
    handle_request_cases Method.other = unknown (inl (λ e. cc)) refl refl
