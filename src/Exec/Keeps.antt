-- ===== src/Exec/Keeps.antt =====
-- What an action leaves as it is, whether it returns or fails: a rule for each way to build one.
use magic_share.Base.{
  ◌≡◌, refl, sym, ◌∙◌, ◌⊎◌, inl, inr, Bool, true, false, Result, ok, err, List, [], ◌∷◌,
  if◌then◌else◌,
}
use magic_share.Exec.{Exec, continue, ◌>>=◌, ◌>>◌, fold}

module _ {S V : Type 0} (view : S → V) where
  abbrev pub Keeps : {A : Type 0} → Exec S A → Type 0
  Keeps m = (s : S) → view (m s).1 ≡ view s

module _ {S V A B : Type 0} (view : S → V) where
  pub Keeps-continue :
      (got : Result A) (k : A → Exec S B) (s : S)
      → ((a : A) → Keeps view (k a))
      → view (continue got k s).1 ≡ view s
  Keeps-continue (ok a) k s h = h a s
  Keeps-continue (err e) k s h = refl

  pub Keeps-bind :
      (m : Exec S A) (k : A → Exec S B)
      → Keeps view m
      → ((a : A) → Keeps view (k a))
      → Keeps view (m >>= k)
  Keeps-bind m k hm hk s = Keeps-continue (m s).0 k (m s).1 hk ∙ hm s

  pub Keeps-then : (m : Exec S A) (n : Exec S B) → Keeps view m → Keeps view n → Keeps view (m >> n)
  Keeps-then m n hm hn = Keeps-bind m (λ _. n) hm (λ _. hn)

  -- What is changed by two steps is changed by the second, and then the first returned.
  changed_later :
      (got : Result A) (k : A → Exec S B) (w s : S)
      → view w ≡ view s
      → (view (continue got k w).1 ≡ view s) ⊎ ((a : A) × (got ≡ ok a) × (continue got k w ≡ k a w))
  changed_later (ok a) k w s h = inr (a, refl, refl)
  changed_later (err e) k w s h = inl h

  pub changed_by_second :
      (m : Exec S A) (k : A → Exec S B) (s : S)
      → Keeps view m
      → (view ((m >>= k) s).1 ≡ view s) ⊎ ((a : A) × ((m s).0 ≡ ok a) × ((m >>= k) s ≡ k a (m s).1))
  changed_by_second m k s h = changed_later (m s).0 k (m s).1 s (h s)

module _ {S V A : Type 0} (view : S → V) where
  pub Keeps-if :
      (b : Bool) (m n : Exec S A) → Keeps view m → Keeps view n → Keeps view (if b then m else n)
  Keeps-if true m n hm hn = hm
  Keeps-if false m n hm hn = hn

  pub Keeps-fold :
      {T : Type 0} (f : T → A → Exec S T)
      → ((t : T) (a : A) → Keeps view (f t a))
      → (t : T) (l : List A) → Keeps view (fold f t l)
  unfolding fold
  Keeps-fold f h t [] s = refl
  Keeps-fold f h t (a ∷ l) s =
      Keeps-bind view (f t a) (λ u. fold f u l) (h t a) (λ u. Keeps-fold f h u l) s

-- A bind that returned did so through its first step.
module _ {S A B : Type 0} where
  continue-eq-ok :
      (got : Result A) (k : A → Exec S B) (s : S) {b : B}
      → (continue got k s).0 ≡ ok b
      → (a : A) × (got ≡ ok a) × (continue got k s ≡ k a s)
  continue-eq-ok (ok a) k s h = (a, refl, refl)
  continue-eq-ok (err e) k s h = cc

  -- As `bind-eq-ok`, with the state that is left.
  pub bind-run :
      (m : Exec S A) (k : A → Exec S B) (s : S) {b : B}
      → ((m >>= k) s).0 ≡ ok b
      → (a : A) × ((m s).0 ≡ ok a) × ((m >>= k) s ≡ k a (m s).1) × ((k a (m s).1).0 ≡ ok b)
  bind-run m k s h = let (a, e, f) = continue-eq-ok (m s).0 k (m s).1 h in (a, e, f, rw (sym f) h)

  pub bind-eq-ok :
      (m : Exec S A) (k : A → Exec S B) (s : S) {b : B}
      → ((m >>= k) s).0 ≡ ok b
      → (a : A) × ((m s).0 ≡ ok a) × ((k a (m s).1).0 ≡ ok b)
  bind-eq-ok m k s h = let (a, e, f) = continue-eq-ok (m s).0 k (m s).1 h in (a, e, rw (sym f) h)
