-- ===== src/Http/Client/Register.antt =====
-- A client's `register` at a server: core/src/http/client/v3.rs and server/mod.rs together.
use magic_share.Base.{
  ℕ, ◌≡◌, refl, ◌∙◌, Bool, Option, none, some, [], ◌∷◌, codes, ok, number_eq, list_eq,
}
use magic_share.Crypto.{Bytes, Text, Base64}
use magic_share.Crypto.Cert.{X509, verify_cert_from_der, public_key_from_cert_der}
use magic_share.Http.{LruCache, JsonText, RequestClientInfo}
use magic_share.Http.Messages.{ProtocolType, RegisterDto, RegisterResponseDto}
use magic_share.Http.Routes.{
  Method, AppState, own_info, handle_request, dispatch, register, registered, route_of, post_route,
}
use magic_share.Http.Url.{ApiVersion, TargetUrl, Digits, to_string}
use magic_share.Http.Reqwest.{success, Request, Reply, Messages}
use magic_share.Http.Client.{register_v3, perform, key_if_https, verify_cert_from_res, key_of}

module _ (lru : LruCache) (b64 : Base64) (request_json response_json error_json : JsonText)
    (describe : ℕ → Text) (x : X509) (digits : Digits) (json : Messages) where
  abbrev pub State : Type 0
  State =
      AppState lru b64 request_json response_json error_json json.register json.register_response
        describe

  -- A server that is sent a request answers over a connection with its certificate.
  abbrev pub answer :
      Bool → RequestClientInfo → Bytes → Bytes → State → Method → Bytes → Text → Option Reply
  answer legacy client new_nonce cert s method body path =
      let (res, s') =
        handle_request lru b64 request_json response_json error_json json.register
          json.register_response describe legacy client new_nonce method (b'/' ∷ path) body s in
      some record { status = res.status; body = res.body; tls_info = some (some cert) }

  abbrev pub info_of : State → RegisterResponseDto
  info_of s =
      own_info lru b64 request_json response_json error_json json.register json.register_response
        describe s

  abbrev pub target : Text → ℕ → TargetUrl
  target ip port = record {
    version = ApiVersion.v3;
    protocol = codes "https";
    host = ip;
    port = port;
    path = codes "/register";
    params = [];
  }

  answered :
      (legacy : Bool) (client : RequestClientInfo) (new_nonce cert : Bytes) (s : State)
      (payload : RegisterDto)
      → answer legacy client new_nonce cert s Method.post
          (json.register.encode payload)
          (codes "api/localsend/v3/register")
        ≡ some record {
          status = 200;
          body = json.register_response.encode (info_of s);
          tls_info = some (some cert);
        }
  unfolding handle_request dispatch register registered route_of post_route
  answered legacy client new_nonce cert s payload = rw (json.register.decode-encode payload) refl

  -- Where a request to register, sent to this address over HTTPS, comes to a server as a request on
  -- the path of `register`, and its answer comes back with the server's certificate: registering
  -- returns the server's own information and the key of its certificate, if that certificate passes
  -- the check without an expected key.
  pub register_agreement :
      (send : Request → Option Reply) (legacy : Bool) (client : RequestClientInfo)
      (new_nonce cert : Bytes) (s : State) (ip : Text) (port : ℕ) (payload : RegisterDto)
      {key : Text}
      → send record {
        method = Method.post;
        url = to_string digits (target ip port);
        body = json.register.encode payload;
      }
        ≡ answer legacy client new_nonce cert s Method.post
            (json.register.encode payload)
            (codes "api/localsend/v3/register")
      → verify_cert_from_der x cert none ≡ ok tt
      → public_key_from_cert_der x cert ≡ ok key
      → register_v3 x digits json send ProtocolType.https ip port payload
        ≡ success record { public_key = some key; body = info_of s }
  unfolding register_v3 perform key_if_https verify_cert_from_res key_of
  register_agreement send legacy client new_nonce cert s ip port payload delivered valid has_key =
      rw
        (
          delivered ∙ answered legacy client new_nonce cert s payload,
          valid,
          has_key,
          json.register_response.decode-encode (info_of s),
        )
        refl
