-- ===== src/Map.antt =====
-- `std::collections::HashMap`, as a list of entries. The order of the list stands for the order
-- of iteration, which Rust leaves open; an entry that is overwritten keeps its place.
pub mod Laws
use magic_share.Base.{
  ℕ, Bool, Option, none, some, List, [], ◌∷◌, PartialEq, ◌==◌, if◌then◌else◌, length, true, false,
}

abbrev pub HashMap {ℓ κ} : Type ℓ → Type κ → Type (ℓ ⊔ κ)
HashMap K V = List (K × V)

module _ {ℓ κ} {K : Type ℓ} {V : Type κ} ⦃e : PartialEq K⦄ where
  unfoldable pub get : HashMap K V → K → Option V
  get [] k = none
  get ((j, v) ∷ m) k = if j == k then some v else get m k

  unfoldable pub insert : HashMap K V → K → V → HashMap K V
  insert [] k v = (k, v) ∷ []
  insert ((j, w) ∷ m) k v = if j == k then (j, v) ∷ m else (j, w) ∷ insert m k v

  unfoldable pub remove : HashMap K V → K → HashMap K V
  remove [] k = []
  remove ((j, w) ∷ m) k = let rest = remove m k in if j == k then rest else (j, w) ∷ rest
