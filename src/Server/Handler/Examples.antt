-- ===== src/Server/Handler/Examples.antt =====
-- A forged line at a toy of the libraries: a text is its bytes, and an address is one digit.
use magic_share.Base.{
  ◌≡◌, refl, Option, none, some, [], ◌∷◌, codes, arith, inl, inr, list_eq, number_eq,
}
use magic_share.Map.{get}
use magic_share.Crypto.{Text}
use magic_share.Crypto.Text.{split}
use magic_share.Signaling.{ClientInfoWithoutId, client_info}
use magic_share.Http.Examples.{shifted}
use magic_share.Server.IpGroup.{IpAddr, v4, get_ip_group}
use magic_share.Server.Handler.{
  Std, HeaderMap, unwrap_or, ws_handler, client_ip, forwarded_ip, peer_info,
}
use magic_share.Server.Handler.Forwarded.{ws_handler_group}

abbrev one_digit : Text → Option IpAddr
one_digit [] = none
one_digit (c ∷ t) = some (v4 c 0 0 0)

abbrev pub bytes : Std
bytes = record { from_utf8 = some; trim = λ t. t; parse_ip = one_digit; to_str = some }

abbrev pub pear : ClientInfoWithoutId
pear = record {
  alias = "Pear";
  version = "2.1";
  device_model = none;
  device_type = none;
  token = "t";
}

abbrev forged : HeaderMap
forged = (codes "x-forwarded-for", codes "1,2,3") ∷ (codes "x-forwarded-for", codes "4") ∷ []

admitted :
    ws_handler bytes shifted (λ t. some pear) (codes "d") forged (v4 9 9 9 9) 5
    ≡ inr (get_ip_group (v4 b'3' 0 0 0), client_info pear 5)
unfolding ws_handler client_ip forwarded_ip peer_info get split
admitted = refl

ws_handler_group_example :
    (get_ip_group (v4 b'3' 0 0 0) ≡ get_ip_group (unwrap_or (one_digit (codes "3")) (v4 9 9 9 9)))
    × (peer_info bytes shifted (λ t. some pear) (codes "d") 5 ≡ some (client_info pear 5))
ws_handler_group_example =
    ws_handler_group bytes shifted (λ t. some pear) (codes "d") (codes "1,2") (codes "3")
      (codes "1,2,3") ((codes "x-forwarded-for", codes "4") ∷ []) (v4 9 9 9 9) 5 (inl refl)
      (omega arith, tt) admitted
