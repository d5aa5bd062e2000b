-- ===== src/Crypto/Text.antt =====
-- `str::split` on one character, and `u64::to_le_bytes`.
use native.Mathlib.Nat.{pow-suc}
use magic_share.Base.{
  ℕ, zero, suc, ◌+◌, ◌*◌, ◌/◌, ◌%◌, ◌^◌, ◌<◌, ◌≡◌, refl, ◌≢◌, List, [], ◌∷◌, ◌++◌, arith, eqb,
  if◌then◌else◌, All, length,
}

abbrev cons_head : ℕ → List (List ℕ) → List (List ℕ)
cons_head c [] = (c ∷ []) ∷ []
cons_head c (x ∷ xs) = (c ∷ x) ∷ xs

-- At least one part, also of the empty text.
unfoldable pub split : ℕ → List ℕ → List (List ℕ)
split sep [] = [] ∷ []
split sep (c ∷ s) = let rest = split sep s in if eqb c sep then [] ∷ rest else cons_head c rest

pub split_plain : (sep : ℕ) (x : List ℕ) → All (λ c. c ≢ sep) x → split sep x ≡ x ∷ []
unfolding split
split_plain sep [] p = refl
split_plain sep (c ∷ x) p = ground (arith, p.0, split_plain sep x p.1)

pub split-append :
    (sep : ℕ) (x s : List ℕ) → All (λ c. c ≢ sep) x → split sep (x ++ sep ∷ s) ≡ x ∷ split sep s
unfolding split
split-append sep [] s p = ground arith
split-append sep (c ∷ x) s p = ground (arith, p.0, split-append sep x s p.1)

-- Little endian, in `n` bytes.
unfoldable pub to_le_bytes : ℕ → ℕ → List ℕ
to_le_bytes zero v = []
to_le_bytes (suc n) v = v % 256 ∷ to_le_bytes n (v / 256)

unfoldable pub from_le_bytes : List ℕ → ℕ
from_le_bytes [] = 0
from_le_bytes (b ∷ bs) = b + 256 * from_le_bytes bs

pub length-to_le_bytes : (n v : ℕ) → length (to_le_bytes n v) ≡ n
unfolding to_le_bytes
length-to_le_bytes zero v = refl
length-to_le_bytes (suc n) v = omega (arith, length-to_le_bytes n (v / 256))

pub from_le_bytes-to_le_bytes : (n v : ℕ) → v < 256 ^ n → from_le_bytes (to_le_bytes n v) ≡ v
unfolding to_le_bytes from_le_bytes
from_le_bytes-to_le_bytes zero v h = omega arith
from_le_bytes-to_le_bytes (suc n) v h =
    omega (arith, from_le_bytes-to_le_bytes n (v / 256) (omega (arith, pow-suc 256 n)))
