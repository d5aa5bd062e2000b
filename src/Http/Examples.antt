-- ===== src/Http/Examples.antt =====
-- The nonce exchange at toy crates: a byte is encoded as its value plus 47, JSON is the text
-- itself, and the cache keeps two entries.
use magic_share.Base.{
  ℕ, ◌+◌, ◌-◌, ◌≡◌, refl, ap, ap₂, ◌≢◌, ◌⊎◌, some, none, [], ◌∷◌, map, take, number_eq, list_eq,
  ==-refl, ok, arith, codes, All, true,
}
use magic_share.Crypto.{Bytes, Text, Base64, validate_nonce}
use magic_share.Map.{HashMap, get}
use magic_share.Http.{LruCache, JsonText, RequestClientInfo, identifier}
use magic_share.Http.Nonce.{
  NonceMaps, serve_nonce, nonce_request, nonce_response, nonce_agreement, serve_nonce_cases, keep,
}

pub shift_back : (b : Bytes) → map (λ x. x - 47) (map (λ x. x + 47) b) ≡ b
shift_back [] = refl
shift_back (x ∷ b) = ap₂ ◌∷◌ (omega arith) (shift_back b)

pub shift_plain : (b : Bytes) → All (λ c. c ≢ b'.') (map (λ x. x + 47) b)
shift_plain [] = tt
shift_plain (x ∷ b) = (omega arith, shift_plain b)

abbrev pub shifted : Base64
shifted = record {
  encode = map (λ x. x + 47);
  decode = λ t. some (map (λ x. x - 47) t);
  decode-encode = λ b. ap some (shift_back b);
  encode-Plain = shift_plain;
}

pub first_found :
    (c : HashMap Text Bytes) (k : Text) (v : Bytes) → get ((k, v) ∷ take 1 c) k ≡ some v
unfolding get
first_found c k v = rw (==-refl k) refl

abbrev pub two_entries : LruCache
two_entries = record {
  Cache = HashMap Text Bytes;
  put = λ c k v. (k, v) ∷ take 1 c;
  get = get;
  get-put = first_found;
}

abbrev pub bare : JsonText
bare = record { encode = λ t. t; decode = some; decode-encode = λ t. refl }

abbrev pub unused : NonceMaps two_entries shifted bare bare bare
unused = record { received_nonce_map = []; generated_nonce_map = [] }

abbrev pub nonce : Bytes
nonce = codes "0123456789abcdef"

abbrev pub visitor : RequestClientInfo
visitor = record { ip = codes "10.0.0.7"; public_key = none }

abbrev pub no_text : ℕ → Text
no_text code = []

valid : validate_nonce nonce ≡ true
unfolding validate_nonce
valid = refl

nonce_agreement_example :
    let (res, server) =
      serve_nonce two_entries shifted bare bare bare no_text visitor
        (codes "reply")
        (nonce_request two_entries shifted bare bare bare nonce)
        unused in
    let (got, client) =
      nonce_response two_entries shifted bare bare bare (some (codes "key")) nonce res unused in
    (got ≡ ok (shifted.encode (codes "reply")))
    × (get server.received_nonce_map (identifier visitor) ≡ some nonce)
    × (get server.generated_nonce_map (identifier visitor) ≡ some (codes "reply"))
    × (get client.received_nonce_map (codes "key") ≡ some (codes "reply"))
    × (get client.generated_nonce_map (codes "key") ≡ some nonce)
nonce_agreement_example =
    nonce_agreement two_entries shifted bare bare bare no_text visitor (codes "key") nonce
      (codes "reply") unused unused valid

serve_nonce_cases_example :
    let (res, server) =
      serve_nonce two_entries shifted bare bare bare no_text visitor nonce (codes "PP") unused in
    ((res.status ≡ 400) × (server ≡ unused))
    ⊎ ((payload : Text) × (sent : Bytes) × (bare.decode (codes "PP") ≡ some payload)
        × (shifted.decode payload ≡ some sent)
        × (validate_nonce sent ≡ true)
        × (res ≡ record { status = 200; body = bare.encode (shifted.encode nonce) })
        × (server ≡ keep two_entries shifted bare bare bare (identifier visitor) sent nonce unused))
serve_nonce_cases_example =
    serve_nonce_cases two_entries shifted bare bare bare no_text visitor nonce (codes "PP") unused
