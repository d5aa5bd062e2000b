-- ===== src/Map/Laws.antt =====
-- The laws of a hash map.
use magic_share.Base.{
  ℕ, suc, ◌≤◌, ◌+◌, ◌≡◌, refl, ◌≢◌, ap, Bool, true, false, Option, none, some, List, [], ◌∷◌,
  PartialEq, ◌==◌, ==-refl, if◌then◌else◌, length, arith, All,
}
use magic_share.Map.{HashMap, get, insert, remove}

module _ {ℓ κ} {K : Type ℓ} {V : Type κ} ⦃e : PartialEq K⦄ where
  pub get-insert :
      (m : HashMap K V) (k j : K) (v : V)
      → get (insert m k v) j ≡ (if k == j then some v else get m j)
  unfolding get insert
  get-insert [] k j v = refl
  get-insert ((i, w) ∷ m) k j v =
      ground (arith, e.test_iff i k, e.test_iff i j, e.test_iff k j, get-insert m k j v)

  pub get-remove :
      (m : HashMap K V) (k j : K) → get (remove m k) j ≡ (if k == j then none else get m j)
  unfolding get remove
  get-remove [] k j = ground arith
  get-remove ((i, w) ∷ m) k j =
      ground (arith, e.test_iff i k, e.test_iff i j, e.test_iff k j, get-remove m k j)

  pub length-insert_new :
      (m : HashMap K V) (k : K) (v : V) → get m k ≡ none → length (insert m k v) ≡ suc (length m)
  unfolding get insert
  length-insert_new [] k v h = refl
  length-insert_new ((i, w) ∷ m) k v h = ground (arith, length-insert_new m k v)

  pub length-insert_le : (m : HashMap K V) (k : K) (v : V) → length (insert m k v) ≤ length m + 1
  unfolding insert
  length-insert_le [] k v = omega arith
  length-insert_le ((i, w) ∷ m) k v = ground (arith, length-insert_le m k v)

  pub length-insert_old :
      (m : HashMap K V) (k : K) (v : V) {w : V}
      → get m k ≡ some w
      → length (insert m k v) ≡ length m
  unfolding get insert
  length-insert_old [] k v {w} h = cc
  length-insert_old ((i, w) ∷ m) k v {w = u} h = ground (arith, length-insert_old m k v {w = u})

  pub length-remove-le : (m : HashMap K V) (k : K) → length (remove m k) ≤ length m
  unfolding remove
  length-remove-le [] k = omega arith
  length-remove-le ((i, w) ∷ m) k = ground (arith, length-remove-le m k)

  pub get-insert_self : (m : HashMap K V) (k : K) (v : V) → get (insert m k v) k ≡ some v
  get-insert_self m k v = simp (get-insert, ==-refl)

  pub get-remove_self : (m : HashMap K V) (k : K) → get (remove m k) k ≡ none
  get-remove_self m k = simp (get-remove, ==-refl)

pub ruleset map_laws = (get-insert, get-remove, ==-refl)

module _ {ℓ κ} {K : Type ℓ} {V : Type κ} ⦃e : PartialEq K⦄ where
  pub remove_absent : (m : HashMap K V) (k : K) → get m k ≡ none → remove m k ≡ m
  unfolding get remove
  remove_absent [] k h = refl
  remove_absent ((i, w) ∷ m) k h = ground (arith, remove_absent m k)

  pub remove-insert : (m : HashMap K V) (k : K) (v : V) → remove (insert m k v) k ≡ remove m k
  unfolding insert remove
  remove-insert [] k v = ground (arith, e.test_iff k k)
  remove-insert ((i, w) ∷ m) k v = ground (arith, e.test_iff i k, remove-insert m k v)
