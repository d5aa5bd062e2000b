-- ===== src/Network/Members.antt =====
-- ws_controller.rs: whose channels stand in a room of the server, and under which ids.
use magic_share.Base.{
  ◌≡◌, inl, inr, true, false, Bool, none, some, number_eq, list_eq, ◌==◌, ltb, if◌then◌else◌, arith,
  Option-cases, Bool-cases, list_test_iff,
}
use mathlib.Core.Path.{subst}
use magic_share.Map.{get, insert, remove}
use magic_share.Map.Laws.{get-insert, get-remove}
use magic_share.Signaling.{Uuid, ClientInfoWithoutId, without_id, WsClientMessage}
use magic_share.Server.{
  Limits, Group, Sender, ClientState, LocalMap, AppState, Event, connects, receives, disconnects,
  hour, step,
}
use magic_share.Server.Rooms.{Rooms, view, at, admits, charge, rename, edit, spec_step}
use magic_share.Server.Refines.{IsU32, view-step}

-- Every channel of a room is one that a predicate allows there under its id.
abbrev pub Allowed : (Group → Uuid → Sender → Type 0) → Rooms → Type 0
Allowed P r = (g : Group) (id : Uuid) (p : ClientState) → get (r.room g) id ≡ some p → P g id p.tx

module _ (P : Uuid → Sender → Type 0) where
  abbrev AllowedIn : LocalMap → Type 0
  AllowedIn l = (id : Uuid) (p : ClientState) → get l id ≡ some p → P id p.tx

  insert-AllowedIn :
      (l : LocalMap) (id : Uuid) (p : ClientState)
      → P id p.tx
      → AllowedIn l
      → AllowedIn (insert l id p)
  insert-AllowedIn l id p ok a k q e = elim (Bool-cases (id == k)) [
    | inl s ↦
        let same : id ≡ k = ground arith in
        let held : some p ≡ some q = rw (get-insert l id k p, s) at e in
        let it : p ≡ q = cc in rw (← same, ← it) ok
    | inr s ↦ a k q (rw (get-insert l id k p, s) at e)
  ]

  remove-AllowedIn : (l : LocalMap) (id : Uuid) → AllowedIn l → AllowedIn (remove l id)
  remove-AllowedIn l id a k q e = elim (Bool-cases (id == k)) [
    | inl s ↦ let never : none ≡ some q = rw (get-remove l id k, s) at e in cc
    | inr s ↦ a k q (rw (get-remove l id k, s) at e)
  ]

  rename-AllowedIn :
      (l : LocalMap) (id : Uuid) (info : ClientInfoWithoutId)
      → AllowedIn l
      → AllowedIn (rename id info l (get l id))
  rename-AllowedIn l id info a = elim (Option-cases (get l id)) [
    | inl e ↦ rw e a
    | inr (p, e) ↦ rw e (insert-AllowedIn l id (record p { client = info }) (a id p e) a)
  ]

module _ (P : Group → Uuid → Sender → Type 0) where
  Allowed-if : (b : Bool) (x y : Rooms) → Allowed P x → Allowed P y → Allowed P (if b then x else y)
  Allowed-if true x y hx hy = hx
  Allowed-if false x y hx hy = hy

  Allowed-at :
      (r : Rooms) (g : Group) (l : LocalMap)
      → Allowed P r
      → AllowedIn (P g) l
      → Allowed P (record r { room = at r.room g l })
  Allowed-at r g l a h k id p e = elim (Bool-cases (g == k)) [
    | inl s ↦ subst (λ j. P j id p.tx) ((list_test_iff g k).0 s) (h id p (rw s at e))
    | inr s ↦ a k id p (rw s at e)
  ]

  edit-Allowed :
      (r : Rooms) (g : Group) (id : Uuid) (m : WsClientMessage)
      → Allowed P r
      → Allowed P (edit r g id m)
  edit-Allowed r g id (WsClientMessage.update info) a =
      Allowed-at r g _ a (rename-AllowedIn (P g) (r.room g) id info (a g))
  edit-Allowed r g id (WsClientMessage.offer m) a = a
  edit-Allowed r g id (WsClientMessage.answer m) a = a

  -- The event's own channel may stand in its room.
  abbrev pub Fits : Event → Type 0
  Fits (connects g peer tx) = P g peer.id tx
  Fits _ = Unit

  spec-Allowed :
      (lim : Limits) (r : Rooms) (e : Event) → Fits e → Allowed P r → Allowed P (spec_step lim r e)
  spec-Allowed lim r (connects g peer tx) f a =
      Allowed-if (admits lim r g) _ _
        (Allowed-at (charge r g) g _ a (
          insert-AllowedIn (P g) (r.room g) peer.id (record { client = without_id peer; tx = tx }) f
            (a g)))
        a
  spec-Allowed lim r (receives g peer tx none) f a = a
  spec-Allowed lim r (receives g peer tx (some m)) f a =
      Allowed-if (ltb (r.requests g) lim.max_requests) _ _ (edit-Allowed (charge r g) g peer.id m a)
        a
  spec-Allowed lim r (disconnects g id) f a =
      Allowed-at r g _ a (remove-AllowedIn (P g) (r.room g) id (a g))
  spec-Allowed lim r hour f a = a

  pub step-Allowed :
      (lim : Limits) (s : AppState) (e : Event)
      → IsU32 lim
      → Fits e
      → Allowed P (view s)
      → Allowed P (view (step lim s e))
  step-Allowed lim s e fits f a g id p h =
      spec-Allowed lim (view s) e f a g id p
        (subst (λ (r : Rooms). get (r.room g) id ≡ some p) (view-step lim s e fits) h)
