-- ===== src/Base/Equality.antt =====
-- `PartialEq` as an interface, with the instances that the program compares by.
use Prim.Native.Nat.{ℕ}
use Prim.Native.String.{String}
use mathlib.Core.Path.{◌≡◌, refl}
use mathlib.Core.Logic.{◌↔◌}
use mathlib.Core.Bool.{Bool, true, false, ◌&&◌}
use mathlib.Core.List.{List, [], ◌∷◌}
use native.Mathlib.Omega.{arith}
use text.Mathlib.Text.{◌==◌ as str_eq}
use text.Mathlib.TextEquality.{eq_iff}
use magic_share.Base.Tests.{eqb, eqb_iff}

pub record PartialEq {ℓ} (A : Type ℓ) : Type ℓ where
  pub test : (x y : A) → Bool
  pub test_iff : (x y : A) → (test x y ≡ true) ↔ (x ≡ y)

infix 50 ◌==◌
abbrev pub ◌==◌ {ℓ} : {A : Type ℓ} ⦃eq : PartialEq A⦄ → A → A → Bool
◌==◌ ⦃eq⦄ = eq.test

pub ==-refl {ℓ} : {A : Type ℓ} ⦃eq : PartialEq A⦄ (a : A) → (a == a) ≡ true
==-refl ⦃eq⦄ a = (eq.test_iff a a).1 refl

instance abbrev pub number_eq : PartialEq ℕ
number_eq = record { test = eqb; test_iff = eqb_iff }

instance abbrev pub text_eq : PartialEq String
text_eq = record { test = str_eq; test_iff = eq_iff }

abbrev list_test {ℓ} : {A : Type ℓ} ⦃eq : PartialEq A⦄ → List A → List A → Bool
list_test [] [] = true
list_test (x ∷ xs) (y ∷ ys) = x == y && list_test xs ys
list_test _ _ = false

pub list_test_iff {ℓ} :
    {A : Type ℓ} ⦃eq : PartialEq A⦄ (xs ys : List A) → (list_test xs ys ≡ true) ↔ (xs ≡ ys)
list_test_iff [] [] = (λ h. refl, λ h. refl)
list_test_iff [] (y ∷ ys) = (λ h. cc, λ h. cc)
list_test_iff (x ∷ xs) [] = (λ h. cc, λ h. cc)
list_test_iff ⦃eq⦄ (x ∷ xs) (y ∷ ys) = ground (arith, eq.test_iff x y, list_test_iff xs ys)

instance abbrev pub list_eq {ℓ} : {A : Type ℓ} ⦃eq : PartialEq A⦄ → PartialEq (List A)
list_eq = record { test = list_test; test_iff = list_test_iff }
