-- ===== src/Server/Handler.antt =====
-- server/src/controller/ws_controller.rs `ws_handler`: who asks for a socket, and from which
-- address.
pub mod Forwarded
pub mod Examples
use magic_share.Base.{
  Bool, Option, none, some, List, [], ◌∷◌, codes, number_eq, list_eq, ◌⊎◌, inl, inr, ℕ,
}
use magic_share.Map.{HashMap, get}
use magic_share.Crypto.{Bytes, Text, Base64}
use magic_share.Crypto.Text.{split}
use magic_share.Signaling.{Uuid, ClientInfo, ClientInfoWithoutId, client_info}
use magic_share.Server.{Group, and_then}
use magic_share.Server.IpGroup.{IpAddr, get_ip_group}

-- The standard library: `String::from_utf8`, `str::trim` and `IpAddr::from_str`, and of the crate
-- http `HeaderValue::to_str`.
pub record Std : Type 0 where
  pub from_utf8 : Bytes → Option Text
  pub trim : Text → Text
  pub parse_ip : Text → Option IpAddr
  pub to_str : Bytes → Option Text

-- The lines of the header, by their names in lower case. `get` finds the first of a name.
abbrev pub HeaderMap : Type 0
HeaderMap = HashMap Text Bytes

-- `Iterator::last`
abbrev pub last {ℓ} : {A : Type ℓ} → List A → Option A
last [] = none
last (a ∷ []) = some a
last (a ∷ b ∷ l) = last (b ∷ l)

abbrev pub map_option {ℓ κ} : {A : Type ℓ} {B : Type κ} → (A → B) → Option A → Option B
map_option f none = none
map_option f (some a) = some (f a)

abbrev pub unwrap_or {ℓ} : {A : Type ℓ} → Option A → A → A
unwrap_or none d = d
unwrap_or (some a) d = a

module _ (std : Std) (b64 : Base64) (json : Text → Option ClientInfoWithoutId) where
  -- The address in a line `x-forwarded-for`.
  unfoldable pub forwarded_ip : Option Bytes → Option IpAddr
  forwarded_ip line =
      and_then (map_option std.trim (and_then (and_then line std.to_str) λ v. last (split b',' v)))
        std.parse_ip

  unfoldable pub client_ip : HeaderMap → IpAddr → IpAddr
  client_ip headers addr = unwrap_or (forwarded_ip (get headers (codes "x-forwarded-for"))) addr

  unfoldable pub peer_info : Text → Uuid → Option ClientInfo
  peer_info d new_id =
      map_option (λ info. client_info info new_id)
        (and_then (and_then (b64.decode d) std.from_utf8) json)

  abbrev pub upgraded : HeaderMap → IpAddr → Option ClientInfo → ℕ ⊎ (Group × ClientInfo)
  upgraded headers addr none = inl 400
  upgraded headers addr (some peer) = inr (get_ip_group (client_ip headers addr), peer)

  -- A status, or the group and the peer that `handle_socket` is called with. `new_id` is what
  -- `Uuid::new_v4` returns.
  unfoldable pub ws_handler : Text → HeaderMap → IpAddr → Uuid → ℕ ⊎ (Group × ClientInfo)
  ws_handler d headers addr new_id = upgraded headers addr (peer_info d new_id)
