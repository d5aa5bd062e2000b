-- ===== src/Bridge/Batches.antt =====
-- Buffering changes how many messages carry a file, and nothing else.
use mathlib.Core.Path.{fun_ext}
use magic_share.Base.{
  ℕ, ◌<◌, ◌≤◌, ◌≡◌, refl, sym, ap, ◌∙◌, inl, inr, List, [], ◌∷◌, ◌++◌, append_assoc, leb, length,
  concat, Result, ok, err, Bool-cases, leb→le, arith,
}
use magic_share.Exec.{Exec, pure, ◌>>◌, continue}
use magic_share.Bridge.{Bytes, buffer_loop, buffer_size, buffer_receiver, send_rest, send_if}

-- Every message but the last has `size` bytes or more, and the last is not empty.
abbrev pub Batched : ℕ → List Bytes → Type 0
Batched size [] = Unit
Batched size (b ∷ []) = 0 < length b
Batched size (b ∷ c ∷ bs) = (size ≤ length b) × Batched size (c ∷ bs)

cons-Batched :
    (size : ℕ) (b : Bytes) (bs : List Bytes)
    → 0 < size
    → size ≤ length b
    → Batched size bs
    → Batched size (b ∷ bs)
cons-Batched size b [] pos h hs = omega arith
cons-Batched size b (c ∷ bs) pos h hs = (h, hs)

-- One send after the other, to the first that fails.
abbrev pub send_each : {S : Type 0} → (Bytes → Exec S (Unit {0})) → List Bytes → Exec S (Unit {0})
send_each send [] = pure tt
send_each send (b ∷ bs) = send b >> send_each send bs

module _ {S : Type 0} (size : ℕ) (send : Bytes → Exec S (Unit {0})) (pos : 0 < size) where
  abbrev Split : Bytes → List Bytes → Exec S (Unit {0}) → Type 0
  Split buffer rx m =
      (bs : List Bytes) × (concat bs ≡ buffer ++ concat rx)
      × Batched size bs
      × (m ≡ send_each send bs)

  unit_last : (r : Result (Unit {0})) (s : S) → continue r (λ u. pure {S = S} tt) s ≡ (r, s)
  unit_last (ok u) s = refl
  unit_last (err e) s = refl

  loop-Split :
      (buffer : Bytes) (rx : List Bytes) → Split buffer rx (buffer_loop size send buffer rx)
  unfolding buffer_loop send_rest send_if
  loop-Split [] [] = ([], refl, tt, refl)
  loop-Split (b ∷ buffer) [] = (
    (b ∷ buffer) ∷ [],
    refl,
    omega arith,
    fun_ext λ s. sym (unit_last (send (b ∷ buffer) s).0 (send (b ∷ buffer) s).1),
  )
  loop-Split buffer (d ∷ rx) = elim (Bool-cases (leb size (length (buffer ++ d)))) [
    | inl e ↦
        let (bs, whole, batched, run) = loop-Split [] rx in
        rw e (
          (buffer ++ d) ∷ bs,
          ap (◌++◌ (buffer ++ d)) whole ∙ append_assoc buffer d (concat rx),
          cons-Batched size (buffer ++ d) bs pos (leb→le size (length (buffer ++ d)) e) batched,
          ap (λ (m : Exec S (Unit {0})). send (buffer ++ d) >> m) run,
        )
    | inr e ↦
        let (bs, whole, batched, run) = loop-Split (buffer ++ d) rx in
        rw e (bs, whole ∙ append_assoc buffer d (concat rx), batched, run)
  ]

-- `buffer_receiver` sends the bytes of its input, all of them and in order, in messages that hold
-- at least 1 MiB each but the last, which is not empty; it stops at the first send that fails.
pub buffer_receiver-Batched :
    {S : Type 0} (rx : List Bytes) (send : Bytes → Exec S (Unit {0}))
    → (bs : List Bytes) × (concat bs ≡ concat rx)
      × Batched buffer_size bs
      × (buffer_receiver rx send ≡ send_each send bs)
unfolding buffer_receiver
buffer_receiver-Batched rx send = loop-Split buffer_size send (omega arith) [] rx
