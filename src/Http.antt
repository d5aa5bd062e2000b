-- ===== src/Http.antt =====
-- core/src/http: the nonce exchange between an HTTP client and an HTTP server.
pub mod Nonce
pub mod Messages
pub mod Url
pub mod Reqwest
pub mod Client
pub mod Routes
pub mod Examples
pub mod Toy
use magic_share.Base.{ℕ, ◌≡◌, Option, some, none}
use magic_share.Crypto.{Bytes, Text}

-- The crate lru: what was put last is there. It may drop other entries, and says no more.
pub record LruCache : Type 1 where
  pub Cache : Type 0
  pub put : Cache → Text → Bytes → Cache
  pub get : Cache → Text → Option Bytes
  pub get-put : (c : Cache) (k : Text) (v : Bytes) → get (put c k v) k ≡ some v

-- serde_json at a message that holds one text.
pub record JsonText : Type 0 where
  pub encode : Text → Bytes
  pub decode : Bytes → Option Text
  pub decode-encode : (t : Text) → decode (encode t) ≡ some t

pub data AppError : Type 0 where
  hyper : AppError
  status : ℕ → AppError
  bad_request : Text → AppError

pub record Response : Type 0 where
  pub status : ℕ
  pub body : Bytes

-- What the server knows of the sender of a request: the public key of its certificate, where it
-- has one that the key can be read from, and its address.
pub record RequestClientInfo : Type 0 where
  pub ip : Text
  pub public_key : Option Text

unwrap_or : Option Text → Text → Text
unwrap_or none t = t
unwrap_or (some key) t = key

pub identifier : RequestClientInfo → Text
unfolding unwrap_or
identifier info = unwrap_or info.public_key info.ip
