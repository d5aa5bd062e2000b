-- ===== src/Http/Client/Examples.antt =====
-- A client of the HTTP interface and a server, at toy crates.
use magic_share.Base.{◌≡◌, refl, true, false, Option, none, some, [], codes, ok}
use magic_share.Crypto.Cert.{
  verify_cert_from_der, verify_cert_from_cert, check_public_key, expected_public_key,
  public_key_from_cert_der,
}
use magic_share.Crypto.Cert.Examples.{bare_keys, key, passes_unpinned}
use magic_share.Http.Examples.{two_entries, shifted, bare, unused, visitor, no_text}
use magic_share.Http.Toy.{toy_messages}
use magic_share.Http.Messages.{ProtocolType, RegisterDto, PrepareUploadRequestDto}
use magic_share.Http.Routes.{Method, handle_request}
use magic_share.Http.Routes.Cases.{Handled, handle_request_cases}
use magic_share.Http.Url.Examples.{unary}
use magic_share.Http.Reqwest.{success, Request, Reply}
use magic_share.Http.Client.{
  register_v3, prepare_upload, perform, verify_if_https, verify_cert_from_res, read_prepared,
  key_of,
}
use magic_share.Http.Client.Versions.{LsHttpClientVersion, any_prepare_upload}
use magic_share.Http.Client.Versions.Pinned.{IsAnswered, any_prepare_upload-IsAnswered}
use magic_share.Http.Client.Register.{answer, info_of, register_agreement, State}

abbrev server : State two_entries shifted bare bare bare no_text bare_keys unary toy_messages
server = record {
  info = record {
    alias = codes "Desk";
    version = codes "2.1";
    device_model = none;
    device_type = none;
    token = codes "t";
  };
  has_web = true;
  nonces = unused;
}

abbrev phone : RegisterDto
phone = record {
  alias = codes "Phone";
  version = codes "2.1";
  device_model = none;
  device_type = none;
  token = codes "u";
  port = 3;
  protocol = ProtocolType.https;
  has_web_interface = false;
}

has_key : public_key_from_cert_der bare_keys key ≡ ok key
unfolding public_key_from_cert_der
has_key = refl

register_agreement_example :
    register_v3 bare_keys unary toy_messages
      (λ req.
        answer two_entries shifted bare bare bare no_text bare_keys unary toy_messages false visitor
          [] key server req.method req.body
          (codes "api/localsend/v3/register"))
      ProtocolType.https
      (codes "::1")
      3
      phone
    ≡ success record {
      public_key = some key;
      body = info_of two_entries shifted bare bare bare no_text bare_keys unary toy_messages server;
    }
register_agreement_example =
    register_agreement two_entries shifted bare bare bare no_text bare_keys unary toy_messages
      (λ req.
        answer two_entries shifted bare bare bare no_text bare_keys unary toy_messages false visitor
          [] key server req.method req.body (codes "api/localsend/v3/register"))
      false visitor [] key server (codes "::1") 3 phone refl passes_unpinned has_key

abbrev no_content : Reply
no_content = record { status = 204; body = []; tls_info = some (some key) }

abbrev reply : Request → Option Reply
reply req = some no_content

abbrev wish : PrepareUploadRequestDto
wish = record { info = phone; files = [] }

prepared :
    any_prepare_upload bare_keys unary toy_messages reply LsHttpClientVersion.v2 ProtocolType.https
      (codes "::1")
      3
      (some key)
      wish
      (some (codes "1"))
    ≡ success record { status_code = 204; response = none }
unfolding any_prepare_upload prepare_upload perform verify_if_https verify_cert_from_res
    read_prepared key_of verify_cert_from_der verify_cert_from_cert check_public_key
    expected_public_key
prepared = refl

any_prepare_upload-IsAnswered_example :
    IsAnswered bare_keys unary toy_messages reply key record { status_code = 204; response = none }
any_prepare_upload-IsAnswered_example =
    any_prepare_upload-IsAnswered bare_keys unary toy_messages reply LsHttpClientVersion.v2
      (codes "::1") 3 key wish (some (codes "1")) prepared

handle_request_cases_example :
    let (res, s') =
      handle_request two_entries shifted bare bare bare toy_messages.register
        toy_messages.register_response no_text true visitor [] Method.post
        (codes "/api/localsend/v2/upload")
        []
        server in
    Handled two_entries shifted bare bare bare toy_messages.register toy_messages.register_response
      no_text true visitor [] [] Method.post
      (codes "/api/localsend/v2/upload")
      server
      res
      s'
handle_request_cases_example =
    handle_request_cases two_entries shifted bare bare bare toy_messages.register
      toy_messages.register_response no_text true visitor [] [] (codes "/api/localsend/v2/upload")
      server Method.post
