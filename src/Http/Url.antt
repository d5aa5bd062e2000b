-- ===== src/Http/Url.antt =====
-- core/src/http/client/url.rs: the URL of a request.
pub mod Examples
use magic_share.Base.{
  ℕ, ◌≢◌, Bool, true, false, ◌||◌, List, [], ◌∷◌, ◌++◌, map, eqb, if◌then◌else◌, codes, All,
}
use magic_share.Crypto.{Text}

pub data ApiVersion : Type 0 where
  v2 v3 : ApiVersion

pub record TargetUrl : Type 0 where
  pub version : ApiVersion
  pub protocol : Text
  pub host : Text
  pub port : ℕ
  pub path : Text
  pub params : List (Text × Text)

abbrev pub contains : ℕ → Text → Bool
contains c [] = false
contains c (d ∷ s) = eqb d c || contains c s

-- `Vec::join`
abbrev pub join : Text → List Text → Text
join sep [] = []
join sep (t ∷ []) = t
join sep (t ∷ u ∷ ts) = t ++ (sep ++ join sep (u ∷ ts))

abbrev pub version_text : ApiVersion → Text
version_text ApiVersion.v2 = codes "v2"
version_text ApiVersion.v3 = codes "v3"

abbrev pub pair_text : Text × Text → Text
pair_text (k, v) = k ++ b'=' ∷ v

unfoldable pub host_text : Text → Text
host_text host = if contains b':' host then b'[' ∷ (host ++ b']' ∷ []) else host

-- The decimal digits of a number, as the standard library prints them.
pub record Digits : Type 0 where
  pub show : ℕ → Text
  pub show-Plain : (n : ℕ) → All (λ c. c ≢ b'/') (show n)

abbrev pub with_query : Text → List (Text × Text) → Text
with_query base [] = base
with_query base (param ∷ params) = base ++ b'?' ∷ join (codes "&") (map pair_text (param ∷ params))

module _ (digits : Digits) where
  -- What follows the host, up to the query.
  abbrev pub after_host : TargetUrl → Text
  after_host u =
      b':' ∷ (digits.show u.port ++ (codes "/api/localsend/" ++ (version_text u.version ++ u.path)))

  abbrev pub base : TargetUrl → Text
  base u = u.protocol ++ (codes "://" ++ (host_text u.host ++ after_host u))

  unfoldable pub to_string : TargetUrl → Text
  to_string u = with_query (base u) u.params
