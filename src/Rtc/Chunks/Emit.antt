-- ===== src/Rtc/Chunks/Emit.antt =====
-- The chunks of a stream do not depend on how its bytes arrive.
use mathlib.Core.Path.{fun_ext}
use magic_share.Base.{
  ℕ, zero, suc, ◌≤◌, ◌<◌, ◌≡◌, refl, sym, ap, ◌∙◌, inl, inr, List, [], ◌∷◌, ◌++◌, append_assoc, leb,
  if◌then◌else◌, length, take, drop, concat, take-append-drop, length-take, length-drop, arith,
  Bool-cases, leb→le, leb→lt,
}
use magic_share.Exec.{Exec, pure, ◌>>=◌, fold, fold-append, bind_assoc}
use magic_share.Rtc.{Bytes, chunk_size}
use magic_share.Rtc.Chunks.{drain, finish, process, process_in_chunks}

module _ (size : ℕ) where
  full : ℕ → Bytes → List Bytes
  full zero b = []
  full (suc fuel) b =
      let rest = full fuel (drop size b) in if leb size (length b) then take size b ∷ rest else []

  left : ℕ → Bytes → Bytes
  left zero b = b
  left (suc fuel) b = let rest = left fuel (drop size b) in if leb size (length b) then rest else b

  last_chunk : Bytes → List Bytes
  last_chunk [] = []
  last_chunk (x ∷ b) = (x ∷ b) ∷ []

  emit : Bytes → List Bytes → List Bytes
  unfolding last_chunk full left
  emit buffer [] = last_chunk buffer
  emit buffer (d ∷ rx) =
      full (length (buffer ++ d)) (buffer ++ d)
      ++ emit (left (length (buffer ++ d)) (buffer ++ d)) rx

  module _ {S T : Type 0} (callback : T → Bytes → Exec S T) where
    drain-fold :
        (fuel : ℕ) (t : T) (b : Bytes)
        → drain size callback fuel t b
          ≡ (fold callback t (full fuel b) >>= λ u. pure (u, left fuel b))
    unfolding drain full left fold
    drain-fold zero t b = refl
    drain-fold (suc fuel) t b = elim (Bool-cases (leb size (length b))) [
      | inl e ↦ rw e (
          ap (◌>>=◌ (callback t (take size b))) (fun_ext λ u. drain-fold fuel u (drop size b))
          ∙ sym (bind_assoc (callback t (take size b)) _ _))
      | inr e ↦ rw e
    ]

    finish-fold :
        (t : T) (b : Bytes)
        → finish size callback t b ≡ (fold callback t (last_chunk b) >>= λ _. pure tt)
    unfolding finish last_chunk fold
    finish-fold t [] = refl
    finish-fold t (x ∷ b) = sym (bind_assoc (callback t (x ∷ b)) pure (λ _. pure tt))

    process-fold :
        (t : T) (b : Bytes) (rx : List Bytes)
        → process size callback t b rx ≡ (fold callback t (emit b rx) >>= λ _. pure tt)
    unfolding process emit
    process-fold t b [] = finish-fold t b
    process-fold t b (d ∷ rx) =
        let n = length (b ++ d) in
        let sent = fold callback t (full n (b ++ d)) in
        let rest = left n (b ++ d) in
        ap (λ m. m >>= λ p. process size callback p.0 p.1 rx) (drain-fold n t (b ++ d))
        ∙ bind_assoc sent (λ u. pure (u, rest)) (λ p. process size callback p.0 p.1 rx)
        ∙ ap (◌>>=◌ sent) (fun_ext λ u. process-fold u rest rx)
        ∙ sym (bind_assoc sent (λ u. fold callback u (emit rest rx)) (λ _. pure tt))
        ∙ ap (λ m. m >>= λ _. pure tt)
            (sym (fold-append callback t (full n (b ++ d)) (emit rest rx)))

-- Every chunk but the last is full, and the last is neither empty nor over-full.
abbrev pub Chunking : ℕ → List Bytes → Type 0
Chunking size [] = Unit
Chunking size (c ∷ []) = (0 < length c) × (length c ≤ size)
Chunking size (c ∷ d ∷ cs) = (length c ≡ size) × Chunking size (d ∷ cs)

module _ (size : ℕ) (positive : 0 < size) where
  concat-full : (fuel : ℕ) (b : Bytes) → concat (full size fuel b) ++ left size fuel b ≡ b
  unfolding full left
  concat-full zero b = refl
  concat-full (suc fuel) b = elim (Bool-cases (leb size (length b))) [
    | inl e ↦ rw e (
        append_assoc (take size b) _ _
        ∙ ap (◌++◌ (take size b)) (concat-full fuel (drop size b))
        ∙ take-append-drop size b)
    | inr e ↦ rw e
  ]

  left-lt : (fuel : ℕ) (b : Bytes) → length b ≤ fuel → length (left size fuel b) < size
  unfolding left
  left-lt zero b h = omega arith
  left-lt (suc fuel) b h = elim (Bool-cases (leb size (length b))) [
    | inl e ↦
        rw e
          (left-lt fuel (drop size b) (omega (arith, length-drop size b, leb→le size (length b) e)))
    | inr e ↦ rw e (leb→lt size (length b) e)
  ]

  Chunking-cons :
      (c : Bytes) (cs : List Bytes) → length c ≡ size → Chunking size cs → Chunking size (c ∷ cs)
  Chunking-cons c [] h k = (omega arith, omega arith)
  Chunking-cons c (d ∷ cs) h k = (h, k)

  full-Chunking :
      (fuel : ℕ) (b : Bytes) (cs : List Bytes)
      → Chunking size cs
      → Chunking size (full size fuel b ++ cs)
  unfolding full
  full-Chunking zero b cs k = k
  full-Chunking (suc fuel) b cs k = elim (Bool-cases (leb size (length b))) [
    | inl e ↦ rw e (
        Chunking-cons (take size b) _ (omega (arith, length-take size b, leb→le size (length b) e))
          (full-Chunking fuel (drop size b) cs k))
    | inr e ↦ rw e k
  ]

  concat-append : (xs ys : List Bytes) → concat (xs ++ ys) ≡ concat xs ++ concat ys
  concat-append [] ys = refl
  concat-append (x ∷ xs) ys = ap (◌++◌ x) (concat-append xs ys) ∙ sym (append_assoc x _ _)

  concat-emit : (b : Bytes) (rx : List Bytes) → concat (emit size b rx) ≡ b ++ concat rx
  unfolding emit
  concat-emit [] [] = refl
  concat-emit (x ∷ b) [] = refl
  concat-emit b (d ∷ rx) =
      let n = length (b ++ d) in
      concat-append (full size n (b ++ d)) _
      ∙ ap (◌++◌ (concat (full size n (b ++ d)))) (concat-emit (left size n (b ++ d)) rx)
      ∙ sym (append_assoc (concat (full size n (b ++ d))) _ _)
      ∙ ap (λ l. l ++ concat rx) (concat-full n (b ++ d))
      ∙ append_assoc b d (concat rx)

  emit-Chunking : (b : Bytes) (rx : List Bytes) → length b < size → Chunking size (emit size b rx)
  unfolding emit
  emit-Chunking [] [] h = tt
  emit-Chunking (x ∷ b) [] h = (omega arith, omega arith)
  emit-Chunking b (d ∷ rx) h =
      let n = length (b ++ d) in
      full-Chunking n (b ++ d) _
        (emit-Chunking (left size n (b ++ d)) rx (left-lt n (b ++ d) (omega arith)))

-- Whatever the pieces in which a stream arrives, the callback is called on the chunks of its
-- bytes, in order, until one call fails: each chunk has 16 KiB but the last, and none is empty.
pub process_in_chunks-fold :
    {S T : Type 0} (channel : T) (rx : List Bytes) (callback : T → Bytes → Exec S T)
    → (cs : List Bytes) × (concat cs ≡ concat rx)
      × Chunking chunk_size cs
      × (process_in_chunks channel rx callback ≡ (fold callback channel cs >>= λ _. pure tt))
unfolding process_in_chunks
process_in_chunks-fold channel rx callback = (
  emit chunk_size [] rx,
  concat-emit chunk_size (omega arith) [] rx,
  emit-Chunking chunk_size (omega arith) [] rx (omega arith),
  process-fold chunk_size callback channel [] rx,
)
