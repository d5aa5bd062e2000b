-- ===== src/Rtc/Io/Sends.antt =====
-- How many messages a step puts on the channel at most.
use magic_share.Base.{
  ℕ, zero, suc, ◌+◌, ◌≤◌, ◌≡◌, refl, sym, ap, ◌∙◌, Bool, true, false, String, Option, some, none,
  List, [], ◌∷◌, ◌++◌, append_assoc, append-nil, Result, ok, err, length, length-append,
  if◌then◌else◌, arith,
}
use magic_share.Exec.{Exec, pure, continue, ◌>>=◌, ◌>>◌}
use magic_share.Rtc.{DataChannelMessage}
use magic_share.Rtc.Io.{Io, send, transmit, recv, take_first, or_fail}

abbrev pub Grows : ℕ → Io → Io → Type 0
Grows n io io' =
    (msgs : List DataChannelMessage) × (io'.outbox ≡ io.outbox ++ msgs) × (length msgs ≤ n)

abbrev pub Sends : {A : Type 0} → ℕ → Exec Io A → Type 0
Sends n m = (io : Io) → Grows n io (m io).1

pub Grows-none : (n : ℕ) (io : Io) → Grows n io io
Grows-none n io = ([], sym (append-nil io.outbox), omega arith)

pub Grows-trans : (k n : ℕ) (a b c : Io) → Grows k a b → Grows n b c → Grows (k + n) a c
Grows-trans k n a b c (x, e, p) (y, f, q) = (
  x ++ y,
  f ∙ ap (λ (l : List DataChannelMessage). l ++ y) e ∙ append_assoc a.outbox x y,
  omega (arith, length-append x y),
)

module _ {A B : Type 0} where
  Sends-continue :
      (n : ℕ) (got : Result A) (k : A → Exec Io B) (w : Io)
      → ((a : A) → Sends n (k a))
      → Grows n w (continue got k w).1
  Sends-continue n (ok a) k w h = h a w
  Sends-continue n (err e) k w h = Grows-none n w

  pub Sends-bind :
      (j n : ℕ) (m : Exec Io A) (k : A → Exec Io B)
      → Sends j m
      → ((a : A) → Sends n (k a))
      → Sends (j + n) (m >>= k)
  Sends-bind j n m k hm hk io =
      Grows-trans j n io (m io).1 ((m >>= k) io).1 (hm io) (Sends-continue n (m io).0 k (m io).1 hk)

  pub Sends-then :
      (j n : ℕ) (m : Exec Io A) (k : Exec Io B) → Sends j m → Sends n k → Sends (j + n) (m >> k)
  Sends-then j n m k hm hk = Sends-bind j n m (λ _. k) hm (λ _. hk)

pub Sends-pure : {A : Type 0} (a : A) → Sends 0 (pure a)
Sends-pure a = Grows-none 0

pub Sends-if :
    {A : Type 0} (n : ℕ) (b : Bool) (m k : Exec Io A)
    → Sends n m
    → Sends n k
    → Sends n (if b then m else k)
Sends-if n true m k hm hk = hm
Sends-if n false m k hm hk = hk

transmit_sends : (msg : DataChannelMessage) (io : Io) (n : ℕ) → Grows 1 io (transmit msg io n).1
transmit_sends msg io zero = Grows-none 1 io
transmit_sends msg io (suc n) = (msg ∷ [], refl, omega arith)

take_sends : (io : Io) (inbox : List DataChannelMessage) → Grows 0 io (take_first io inbox).1
take_sends io [] = Grows-none 0 io
take_sends io (msg ∷ rest) = Grows-none 0 io

pub send-Sends : (msg : DataChannelMessage) → Sends 1 (send msg)
send-Sends msg io = transmit_sends msg io io.capacity

pub recv-Sends : Sends 0 recv
recv-Sends io = take_sends io io.inbox

pub or_fail-Sends : {A : Type 0} (o : Option A) (e : String) → Sends 0 (or_fail o e)
or_fail-Sends none e io = Grows-none 0 io
or_fail-Sends (some a) e io = Grows-none 0 io
