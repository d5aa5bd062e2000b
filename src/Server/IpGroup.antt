-- ===== src/Server/IpGroup.antt =====
-- server/src/util/ip.rs: the IP group of an address, and which addresses share one.
use native.Mathlib.Nat.{mod-lt, div-add-mod'}
use magic_share.Base.{
  ℕ, zero, suc, ◌+◌, ◌-◌, ◌*◌, ◌/◌, ◌%◌, ◌≤◌, ◌<◌, ◌≡◌, refl, sym, ap, ◌∙◌, ◌≢◌, ◌↔◌, inl, inr,
  Bool-cases, List, [], ◌∷◌, ◌++◌, arith, ltb, if◌then◌else◌, All, All-append,
}

-- An IPv6 address has eight 16-bit segments; only the first four are named.
pub data IpAddr : Type 0 where
  v4 : ℕ → ℕ → ℕ → ℕ → IpAddr
  v6 : ℕ → ℕ → ℕ → ℕ → List ℕ → IpAddr

digit : ℕ → ℕ
digit d = if ltb d 10 then b'0' + d else 87 + d

-- A number in a base of at most 16, with at most `fuel + 1` digits.
show : ℕ → ℕ → ℕ → List ℕ
unfolding digit
show base zero n = digit n ∷ []
show base (suc fuel) n =
    let init = show base fuel (n / base) in
    if ltb n base then digit n ∷ [] else init ++ digit (n % base) ∷ []

-- An octet in decimal.
decimal : ℕ → List ℕ
unfolding show
decimal n = show 10 2 n

-- A segment in `{:x}`.
hex : ℕ → List ℕ
unfolding show
hex n = show 16 3 n

abbrev join4 : ℕ → List ℕ → List ℕ → List ℕ → List ℕ → List ℕ
join4 sep a b c d = a ++ sep ∷ (b ++ sep ∷ (c ++ sep ∷ d))

unfoldable pub get_ip_group : IpAddr → List ℕ
unfolding decimal hex
get_ip_group (v4 a b c d) = join4 b'.' (decimal a) (decimal b) (decimal c) (decimal d)
get_ip_group (v6 a b c d rest) = join4 b':' (hex a) (hex b) (hex c) (hex d)

-- Reading digits back.
undigit : ℕ → ℕ
undigit c = if ltb c 58 then c - b'0' else c - 87

read : ℕ → ℕ → List ℕ → ℕ
read base acc [] = acc
read base acc (c ∷ cs) = read base (acc * base + undigit c) cs

undigit-digit : (d : ℕ) → d < 16 → undigit (digit d) ≡ d
unfolding undigit digit
undigit-digit d h = ground arith

read-append :
    (base acc c : ℕ) (cs : List ℕ)
    → read base acc (cs ++ c ∷ []) ≡ read base acc cs * base + undigit c
unfolding read
read-append base acc c [] = refl
read-append base acc c (x ∷ cs) = read-append base (acc * base + undigit x) c cs

module _ (base fuel : ℕ) where
  -- One more digit of fuel reads back a number that is `base` times as large.
  read-show :
      base ≤ 16
      → 1 < base
      → (n : ℕ) → read base 0 (show base fuel (n / base)) ≡ n / base
      → read base 0 (show base (suc fuel) n) ≡ n
  unfolding show read
  read-show small large n ih = ground (
    arith,
    undigit-digit n,
    undigit-digit (n % base),
    mod-lt n {m = base},
    div-add-mod' n base,
    read-append base 0 (digit (n % base)) (show base fuel (n / base)),
  )

read-show_last : (base n : ℕ) → n < 16 → read base 0 (show base 0 n) ≡ n
unfolding show read
read-show_last base n h = omega (arith, undigit-digit n h)

read-decimal : (n : ℕ) → n < 256 → read 10 0 (decimal n) ≡ n
unfolding decimal
read-decimal n h = read-show 10 1 (omega arith) (omega arith) n (
    read-show 10 0 (omega arith) (omega arith) (n / 10)
      (read-show_last 10 (n / 10 / 10) (omega arith)))

read-hex : (n : ℕ) → n < 65536 → read 16 0 (hex n) ≡ n
unfolding hex
read-hex n h = read-show 16 2 (omega arith) (omega arith) n (
    read-show 16 1 (omega arith) (omega arith) (n / 16) (
      read-show 16 0 (omega arith) (omega arith) (n / 16 / 16)
        (read-show_last 16 (n / 16 / 16 / 16) (omega arith))))

-- No digit is a separator.
abbrev Plain : List ℕ → Type 0
Plain = All λ c. (c ≢ b'.') × (c ≢ b':')

digit-Plain : (d : ℕ) → Plain (digit d ∷ [])
unfolding digit
digit-Plain d = ((ground arith, ground arith), tt)

show-Plain : (base fuel n : ℕ) → Plain (show base fuel n)
unfolding show
show-Plain base zero n = digit-Plain n
show-Plain base (suc fuel) n = elim (Bool-cases (ltb n base)) [
  | inl e ↦ rw e (digit-Plain n)
  | inr e ↦ rw e (
      All-append (λ c. (c ≢ b'.') × (c ≢ b':')) (show base fuel (n / base)) _
        (show-Plain base fuel (n / base)) (digit-Plain (n % base)))
]

-- What stands before the first separator, and what stands behind it, is determined.
split_unique :
    (sep : ℕ) (x y r s : List ℕ)
    → All (λ c. c ≢ sep) x
    → All (λ c. c ≢ sep) y
    → x ++ sep ∷ r ≡ y ++ sep ∷ s
    → (x ≡ y) × (r ≡ s)
split_unique sep [] [] r s p q e = ground arith
split_unique sep [] (d ∷ y) r s p q e = absurd (q.0 (ground arith))
split_unique sep (c ∷ x) [] r s p q e = absurd (p.0 (ground arith))
split_unique sep (c ∷ x) (d ∷ y) r s p q e =
    ground (arith, split_unique sep x y r s p.1 q.1 (ground arith))

separators_differ :
    (m n : ℕ) (x y r s : List ℕ)
    → m ≢ n
    → All (λ c. c ≢ n) x
    → All (λ c. c ≢ m) y
    → x ++ m ∷ r ≢ y ++ n ∷ s
separators_differ m n [] [] r s h p q e = h (ground arith)
separators_differ m n [] (d ∷ y) r s h p q e = q.0 (ground arith)
separators_differ m n (c ∷ x) [] r s h p q e = p.0 (ground arith)
separators_differ m n (c ∷ x) (d ∷ y) r s h p q e =
    separators_differ m n x y r s h p.1 q.1 (ground arith)

module _ (f : ℕ → List ℕ) (sep limit : ℕ) (plain : (n : ℕ) → All (λ c. c ≢ sep) (f n))
    (inj : (m n : ℕ) → m < limit → n < limit → f m ≡ f n → m ≡ n) where
  abbrev Range : ℕ → ℕ → ℕ → ℕ → Type 0
  Range a b c d = (a < limit) × (b < limit) × (c < limit) × (d < limit)

  join4_injective :
      (a b c d a' b' c' d' : ℕ)
      → Range a b c d
      → Range a' b' c' d'
      → join4 sep (f a) (f b) (f c) (f d) ≡ join4 sep (f a') (f b') (f c') (f d')
      → (a ≡ a') × (b ≡ b') × (c ≡ c') × (d ≡ d')
  join4_injective a b c d a' b' c' d' r r' e =
      let (ea, e1) = split_unique sep (f a) (f a') _ _ (plain a) (plain a') e in
      let (eb, e2) = split_unique sep (f b) (f b') _ _ (plain b) (plain b') e1 in
      let (ec, ed) = split_unique sep (f c) (f c') _ _ (plain c) (plain c') e2 in
      (inj a a' r.0 r'.0 ea, inj b b' r.1 r'.1 eb, inj c c' r.2 r'.2 ec, inj d d' r.3 r'.3 ed)

dots : (l : List ℕ) → Plain l → All (λ c. c ≢ b'.') l
dots [] h = tt
dots (c ∷ l) h = (h.0.0, dots l h.1)

colons : (l : List ℕ) → Plain l → All (λ c. c ≢ b':') l
colons [] h = tt
colons (c ∷ l) h = (h.0.1, colons l h.1)

-- An address as the network hands it out.
abbrev pub IsAddr : IpAddr → Type 0
IsAddr (v4 a b c d) = (a < 256) × (b < 256) × (c < 256) × (d < 256)
IsAddr (v6 a b c d rest) = (a < 65536) × (b < 65536) × (c < 65536) × (d < 65536)

-- The same IPv4 address, or the same /64 of IPv6.
abbrev pub SameGroup : IpAddr → IpAddr → Type 0
SameGroup (v4 a b c d) (v4 a' b' c' d') = (a ≡ a') × (b ≡ b') × (c ≡ c') × (d ≡ d')
SameGroup (v6 a b c d rest) (v6 a' b' c' d' rest') = (a ≡ a') × (b ≡ b') × (c ≡ c') × (d ≡ d')
SameGroup _ _ = ⊥

group_injective :
    (x y : IpAddr) → IsAddr x → IsAddr y → get_ip_group x ≡ get_ip_group y → SameGroup x y
unfolding get_ip_group
group_injective (v4 a b c d) (v4 a' b' c' d') hx hy e =
    join4_injective decimal b'.' 256 (λ n. dots (decimal n) (unfold decimal in show-Plain 10 2 n))
      (λ m n p q e. sym (read-decimal m p) ∙ ap (read 10 0) e ∙ read-decimal n q) a b c d a' b' c'
      d' hx hy e
group_injective (v6 a b c d rest) (v6 a' b' c' d' rest') hx hy e =
    join4_injective hex b':' 65536 (λ n. colons (hex n) (unfold hex in show-Plain 16 3 n))
      (λ m n p q e. sym (read-hex m p) ∙ ap (read 16 0) e ∙ read-hex n q) a b c d a' b' c' d' hx hy
      e
group_injective (v4 a b c d) (v6 a' b' c' d' rest) hx hy e = absurd (
    separators_differ b'.' b':' (decimal a) (hex a') _ _ (omega arith)
      (colons (decimal a) (unfold decimal in show-Plain 10 2 a))
      (dots (hex a') (unfold hex in show-Plain 16 3 a')) e)
group_injective (v6 a b c d rest) (v4 a' b' c' d') hx hy e = absurd (
    separators_differ b'.' b':' (decimal a') (hex a) _ _ (omega arith)
      (colons (decimal a') (unfold decimal in show-Plain 10 2 a'))
      (dots (hex a) (unfold hex in show-Plain 16 3 a)) (sym e))

same_group : (x y : IpAddr) → SameGroup x y → get_ip_group x ≡ get_ip_group y
unfolding get_ip_group
same_group (v4 a b c d) (v4 a' b' c' d') h = cc
same_group (v4 a b c d) (v6 a' b' c' d' rest) h = absurd h
same_group (v6 a b c d rest) (v4 a' b' c' d') h = absurd h
same_group (v6 a b c d rest) (v6 a' b' c' d' rest') h = cc

-- Two addresses share an IP group exactly when they are the same IPv4 address, or IPv6 addresses
-- of the same /64.
pub get_ip_group_iff :
    (x y : IpAddr) → IsAddr x → IsAddr y → (get_ip_group x ≡ get_ip_group y) ↔ SameGroup x y
get_ip_group_iff x y hx hy = (group_injective x y hx hy, same_group x y)
