-- ===== src/Exec.antt =====
-- Fallible code over a world that it changes: what was done before an error stays done.
pub mod Keeps
use mathlib.Core.Path.{fun_ext}
use magic_share.Base.{◌≡◌, refl, sym, ◌∙◌, ap, String, Result, ok, err, List, [], ◌∷◌, ◌++◌}

abbrev pub Exec : Type 0 → Type 0 → Type 0
Exec S A = S → Result A × S

module _ {S A : Type 0} where
  abbrev pub pure : A → Exec S A
  pure a s = (ok a, s)

  abbrev pub fail : String → Exec S A
  fail e s = (err e, s)

module _ {S A B : Type 0} where
  abbrev pub continue : Result A → (A → Exec S B) → Exec S B
  continue (err e) next world = (err e, world)
  continue (ok a) next world = next a world

  infixl 5 ◌>>=◌ ◌>>◌
  abbrev pub ◌>>=◌ : Exec S A → (A → Exec S B) → Exec S B
  ◌>>=◌ first next world = continue (first world).0 next (first world).1

  abbrev pub ◌>>◌ : Exec S A → Exec S B → Exec S B
  first >> next = first >>= λ _. next

module _ {S A B C : Type 0} where
  continue_nested :
      (got : Result A) (next : A → Exec S B) (last : B → Exec S C) (world : S)
      → (continue got next >>= last) world ≡ continue got (λ a. next a >>= last) world
  continue_nested (err e) next last world = refl
  continue_nested (ok a) next last world = refl

  pub bind_assoc :
      (first : Exec S A) (next : A → Exec S B) (last : B → Exec S C)
      → (first >>= next >>= last) ≡ (first >>= λ a. next a >>= last)
  bind_assoc first next last =
      fun_ext λ world. continue_nested (first world).0 next last (first world).1

-- A loop over a list that threads a value and stops at the first error.
module _ {S T A : Type 0} (f : T → A → Exec S T) where
  unfoldable pub fold : T → List A → Exec S T
  fold t [] = pure t
  fold t (a ∷ rest) = f t a >>= λ u. fold u rest

  pub fold-append : (t : T) (xs ys : List A) → fold t (xs ++ ys) ≡ (fold t xs >>= λ u. fold u ys)
  unfolding fold
  fold-append t [] ys = refl
  fold-append t (x ∷ xs) ys =
      ap (◌>>=◌ (f t x)) (fun_ext λ u. fold-append u xs ys)
      ∙ sym (bind_assoc (f t x) (λ u. fold u xs) (λ u. fold u ys))
