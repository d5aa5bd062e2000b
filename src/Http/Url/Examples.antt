-- ===== src/Http/Url/Examples.antt =====
-- The URL of an IPv6 address with parameters. A number is printed here as that many digits.
use magic_share.Base.{ℕ, zero, suc, ◌≡◌, refl, ◌≢◌, [], ◌∷◌, codes, All, arith}
use magic_share.Crypto.{Text}
use magic_share.Http.Url.{ApiVersion, TargetUrl, Digits, to_string, host_text}

abbrev ones : ℕ → Text
ones zero = []
ones (suc n) = b'1' ∷ ones n

pub ones-plain : (n : ℕ) → All (λ c. c ≢ b'/') (ones n)
ones-plain zero = tt
ones-plain (suc n) = (omega arith, ones-plain n)

abbrev pub unary : Digits
unary = record { show = ones; show-Plain = ones-plain }

abbrev home : TargetUrl
home = record {
  version = ApiVersion.v2;
  protocol = codes "s";
  host = codes "::1";
  port = 2;
  path = codes "/up";
  params = (codes "id", codes "=") ∷ (codes "t", []) ∷ [];
}

home_text : to_string unary home ≡ codes "s://[::1]:11/api/localsend/v2/up?id==&t="
unfolding to_string host_text
home_text = refl
