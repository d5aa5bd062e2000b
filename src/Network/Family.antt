-- ===== src/Network/Family.antt =====
-- Families over the connections, changed at one of them.
use magic_share.Base.{ℕ, ◌≡◌, refl, eqb, eqb_iff, if◌then◌else◌, ◌≢◌, arith, Bool-cases, inl, inr}
use mathlib.Core.Path.{subst}

module _ {ℓ} {A : Type ℓ} where
  unfoldable pub update : (ℕ → A) → ℕ → A → ℕ → A
  update f i a j = if eqb i j then a else f j

  pub update-same : (f : ℕ → A) (i : ℕ) (a : A) → update f i a i ≡ a
  unfolding update
  update-same f i a = rw ((eqb_iff i i).1 refl) refl

  -- What holds of the new member and of all old ones holds of all.
  pub update-all :
      (P : ℕ → A → Type 0) (f : ℕ → A) (i : ℕ) (a : A)
      → P i a
      → ((j : ℕ) → P j (f j))
      → (j : ℕ) → P j (update f i a j)
  unfolding update
  update-all P f i a h k j = elim (Bool-cases (eqb i j)) [
    | inl e ↦ rw e (subst (λ n. P n a) ((eqb_iff i j).0 e) h)
    | inr e ↦ rw e (k j)
  ]

  pub update-other : (f : ℕ → A) (i j : ℕ) (a : A) → i ≢ j → update f i a j ≡ f j
  unfolding update
  update-other f i j a n = ground (arith, eqb_iff i j)
