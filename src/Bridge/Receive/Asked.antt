-- ===== src/Bridge/Receive/Asked.antt =====
-- What the calls of an app leave in the slots of a receive controller, and what they decide.
use magic_share.Base.{
  ◌≡◌, refl, ap, sym, ◌∙◌, Bool, true, false, ◌||◌, ◌&&◌, Option, none, some, List, [], ◌∷◌, ◌++◌,
  append-nil, if◌then◌else◌, arith, length, length-append, Bool-cases, inl, inr,
}
use magic_share.Rtc.Io.{Text}
use magic_share.Bridge.Receive.Calls.{
  App, Call, statuses, files, errors, receiving, declines, stops, selects, confirms, call, run,
}
use magic_share.Bridge.Receive.{
  ReceiveController, listen_status, listen_files, decide, listen_error, listen_receiving,
  send_file_status,
}

-- Whether one of the calls is of a kind.
abbrev pub asked : (Call → Bool) → List Call → Bool
asked is [] = false
asked is (k ∷ ks) = is k || asked is ks

abbrev pub is_statuses : Call → Bool
is_statuses statuses = true
is_statuses _ = false

abbrev pub is_files : Call → Bool
is_files files = true
is_files _ = false

abbrev pub is_errors : Call → Bool
is_errors errors = true
is_errors _ = false

abbrev pub is_receiving : Call → Bool
is_receiving receiving = true
is_receiving _ = false

-- The first decision before the session stops to wait for one.
abbrev pub first_decision : List Call → List (Option (List Text))
first_decision [] = []
first_decision (stops ∷ ks) = []
first_decision (declines ∷ ks) = none ∷ []
first_decision (selects l ∷ ks) = some l ∷ []
first_decision (_ ∷ ks) = first_decision ks

abbrev emptied {ℓ} : {A : Type ℓ} → Bool → Option A → Option A
emptied true slot = none
emptied false slot = slot

emptied-or {ℓ} :
    {A : Type ℓ} (b d : Bool) (slot : Option A) → emptied d (emptied b slot) ≡ emptied (b || d) slot
emptied-or true true slot = refl
emptied-or true false slot = refl
emptied-or false d slot = refl

-- The four slots after a call: one that was asked for is empty, and the others are as they were.
abbrev pub Slots : Bool × Bool × Bool × Bool → ReceiveController → ReceiveController → Type 0
Slots (s, f, e, r) c d =
    (d.status_rx ≡ emptied s c.status_rx)
    × (d.files_rx ≡ emptied f c.files_rx)
    × (d.error_rx ≡ emptied e c.error_rx)
    × (d.receiving_rx ≡ emptied r c.receiving_rx)

decide-Slots :
    (s : Option (List Text)) (c : ReceiveController)
    → Slots (false, false, false, false) c (decide s c).1
unfolding decide
decide-Slots s c = elim (Bool-cases c.selected_tx) [
  | inl t ↦ elim (Bool-cases c.waits) [
    | inl w ↦ rw (t, w) (refl, refl, refl, refl)
    | inr w ↦ rw (t, w) (refl, refl, refl, refl)
  ]
  | inr t ↦ rw t (refl, refl, refl, refl)
]

call-Slots :
    (k : Call) (c : ReceiveController) (a : App)
    → Slots (is_statuses k, is_files k, is_errors k, is_receiving k) c (call k (c, a)).0
unfolding listen_status listen_files listen_error listen_receiving send_file_status
call-Slots statuses c a = (refl, refl, refl, refl)
call-Slots files c a = (refl, refl, refl, refl)
call-Slots errors c a = (refl, refl, refl, refl)
call-Slots receiving c a = (refl, refl, refl, refl)
call-Slots declines c a = decide-Slots none c
call-Slots stops c a = (refl, refl, refl, refl)
call-Slots (selects l) c a = decide-Slots (some l) c
call-Slots (confirms status) c a = elim (Bool-cases c.reads) [
  | inl t ↦ rw t (refl, refl, refl, refl)
  | inr t ↦ rw t (refl, refl, refl, refl)
]

pub run-Slots :
    (ks : List Call) (w : ReceiveController × App)
    → Slots
        (asked is_statuses ks, asked is_files ks, asked is_errors ks, asked is_receiving ks)
        w.0
        (run ks w).0
unfolding run
run-Slots [] w = (refl, refl, refl, refl)
run-Slots (k ∷ ks) w =
    let (s, f, e, r) = call-Slots k w.0 w.1 in
    let (s', f', e', r') = run-Slots ks (call k w) in
    (
      s' ∙ ap (emptied (asked is_statuses ks)) s ∙ emptied-or (is_statuses k) _ w.0.status_rx,
      f' ∙ ap (emptied (asked is_files ks)) f ∙ emptied-or (is_files k) _ w.0.files_rx,
      e' ∙ ap (emptied (asked is_errors ks)) e ∙ emptied-or (is_errors k) _ w.0.error_rx,
      r' ∙ ap (emptied (asked is_receiving ks)) r ∙ emptied-or (is_receiving k) _ w.0.receiving_rx,
    )

none_left {ℓ} : {A : Type ℓ} (x l : List A) → length (x ++ l) ≡ length l → x ≡ []
none_left [] l h = refl
none_left (a ∷ x) l h = let never : ⊥ = omega (arith, length-append (a ∷ x) l, h) in absurd never

-- What was told of a slot, from what it held and what it still holds.
pub settled {ℓ κ} :
    {A : Type ℓ} {B : Type κ} (b : Bool) (show : Option A → List B) (told : List B)
    (before after : Option A)
    → show none ≡ []
    → told ++ show after ≡ show before
    → after ≡ emptied b before
    → told ≡ (if b then show before else [])
settled true show told before after n h e =
    sym (append-nil told) ∙ ap (told ++◌) (sym (ap show e ∙ n)) ∙ h
settled false show told before after n h e =
    none_left told (show before) (ap length (ap (told ++◌) (sym (ap show e)) ∙ h))

-- Nothing more is decided once the selection was sent, or the session has stopped to wait.
abbrev undecided : ReceiveController → Bool
undecided c = c.selected_tx && c.waits

decided_later :
    (ks : List Call) (w : ReceiveController × App)
    → undecided w.0 ≡ false
    → (run ks w).0.selected ≡ w.0.selected
unfolding run decide listen_status listen_files listen_error listen_receiving send_file_status
decided_later [] w h = refl
decided_later (statuses ∷ ks) w h = decided_later ks (call statuses w) h
decided_later (files ∷ ks) w h = decided_later ks (call files w) h
decided_later (errors ∷ ks) w h = decided_later ks (call errors w) h
decided_later (receiving ∷ ks) w h = decided_later ks (call receiving w) h
decided_later (stops ∷ ks) w h = decided_later ks (call stops w) (ground arith)
decided_later (declines ∷ ks) w h = decided_later ks (call declines w) (ground arith) ∙ ground arith
decided_later (selects l ∷ ks) w h =
    decided_later ks (call (selects l) w) (ground arith) ∙ ground arith
decided_later (confirms status ∷ ks) w h =
    decided_later ks (call (confirms status) w) (ground arith) ∙ ground arith

-- While the session waits, the first decision is the one that it gets.
pub decided_first :
    (ks : List Call) (w : ReceiveController × App)
    → w.0.selected_tx ≡ true
    → w.0.waits ≡ true
    → (run ks w).0.selected ≡ w.0.selected ++ first_decision ks
unfolding run decide listen_status listen_files listen_error listen_receiving send_file_status
decided_first [] w t h = sym (append-nil w.0.selected)
decided_first (statuses ∷ ks) w t h = decided_first ks (call statuses w) t h
decided_first (files ∷ ks) w t h = decided_first ks (call files w) t h
decided_first (errors ∷ ks) w t h = decided_first ks (call errors w) t h
decided_first (receiving ∷ ks) w t h = decided_first ks (call receiving w) t h
decided_first (stops ∷ ks) w t h =
    decided_later ks (call stops w) (rw t refl) ∙ sym (append-nil w.0.selected)
decided_first (declines ∷ ks) w t h =
    decided_later ks (call declines w) (rw (t, h) refl) ∙ rw (t, h) refl
decided_first (selects l ∷ ks) w t h =
    decided_later ks (call (selects l) w) (rw (t, h) refl) ∙ rw (t, h) refl
decided_first (confirms status ∷ ks) w t h =
    decided_first ks (call (confirms status) w) (ground arith) (ground arith) ∙ ground arith
