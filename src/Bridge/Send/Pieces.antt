-- ===== src/Bridge/Send/Pieces.antt =====
-- Files sent side by side do not mix.
use magic_share.Base.{
  ℕ, zero, suc, Option, none, some, length, ◌≡◌, refl, ap, sym, ◌∙◌, Bool, true, false, List, [],
  ◌∷◌, ◌++◌, append_assoc, append-nil, Result, ok, err, eqb, if◌then◌else◌, arith,
}
use magic_share.Bridge.{Bytes}
use magic_share.Rtc.Io.{Text}
use magic_share.Bridge.Send.{
  FileChannel, RtcFileSender, SendController, send_file, taken_file, into, send_into, send,
}

-- The app begins a file or sends a piece; the session drops one file's receiver, or all.
pub data Event : Type 0 where
  begins : Text → Event
  sends : RtcFileSender → Bytes → Event
  drops : ℕ → Event
  stops : Event

abbrev pub drop_reader : ℕ → List FileChannel → List FileChannel
drop_reader i [] = []
drop_reader zero (f ∷ files) = record f { reads = false } ∷ files
drop_reader (suc i) (f ∷ files) = f ∷ drop_reader i files

abbrev pub step : Event → SendController → SendController
step (begins file_id) c = (send_file file_id c).1
step (sends sender batch) c = (send sender batch c).1
step (drops i) c = record c { files = drop_reader i c.files }
step stops c = record c { takes = false }

abbrev pub sent_if : ℕ → ℕ → Bytes → Result (Unit {0}) → List Bytes
sent_if i j batch (err e) = []
sent_if i j batch (ok u) = if eqb i j then batch ∷ [] else []

-- The pieces that the app sent on one channel and was told were sent.
abbrev pub sent_on : ℕ → Event → SendController → List Bytes
sent_on i (sends sender batch) c = sent_if i sender.binary_tx batch (send sender batch c).0
sent_on i _ c = []

unfoldable pub run : ℕ → List Event → SendController → List Bytes × SendController
run i [] c = ([], c)
run i (e ∷ es) c = let (rest, end) = run i es (step e c) in (sent_on i e c ++ rest, end)

abbrev pub pieces_at : ℕ → List FileChannel → List Bytes
pieces_at i [] = []
pieces_at zero (f ∷ files) = f.pieces
pieces_at (suc i) (f ∷ files) = pieces_at i files

pieces-new :
    (i : ℕ) (files : List FileChannel) (f : FileChannel)
    → f.pieces ≡ []
    → pieces_at i (files ++ f ∷ []) ≡ pieces_at i files
pieces-new zero [] f e = e
pieces-new (suc i) [] f e = refl
pieces-new zero (g ∷ files) f e = refl
pieces-new (suc i) (g ∷ files) f e = pieces-new i files f e

pieces-drop :
    (i j : ℕ) (files : List FileChannel) → pieces_at i (drop_reader j files) ≡ pieces_at i files
pieces-drop i j [] = refl
pieces-drop zero zero (f ∷ files) = refl
pieces-drop (suc i) zero (f ∷ files) = refl
pieces-drop zero (suc j) (f ∷ files) = refl
pieces-drop (suc i) (suc j) (f ∷ files) = pieces-drop i j files

into-pieces :
    (b : Bool) (batch : Bytes) (f : FileChannel)
    → (into b batch f).1.pieces ≡ f.pieces ++ sent_if 0 0 batch (into b batch f).0
unfolding into
into-pieces false batch f = sym (append-nil f.pieces)
into-pieces true batch f = refl

sent_if-other :
    (i j : ℕ) (batch : Bytes) (r : Result (Unit {0}))
    → eqb i j ≡ false
    → (l : List Bytes) → l ≡ l ++ sent_if i j batch r
sent_if-other i j batch (err e) h l = sym (append-nil l)
sent_if-other i j batch (ok u) h l = rw h (sym (append-nil l))

sent_if-suc :
    (i j : ℕ) (batch : Bytes) (r : Result (Unit {0}))
    → sent_if i j batch r ≡ sent_if (suc i) (suc j) batch r
sent_if-suc i j batch (err e) = refl
sent_if-suc i j batch (ok u) = ground arith

pieces-send_into :
    (i j : ℕ) (batch : Bytes) (files : List FileChannel)
    → pieces_at i (send_into j batch files).1
      ≡ pieces_at i files ++ sent_if i j batch (send_into j batch files).0
unfolding send_into
pieces-send_into i j batch [] = refl
pieces-send_into zero zero batch (f ∷ files) = into-pieces f.reads batch f
pieces-send_into (suc i) zero batch (f ∷ files) =
    sent_if-other (suc i) 0 batch _ (ground arith) (pieces_at i files)
pieces-send_into zero (suc j) batch (f ∷ files) =
    sent_if-other 0 (suc j) batch _ (ground arith) f.pieces
pieces-send_into (suc i) (suc j) batch (f ∷ files) =
    pieces-send_into i j batch files
    ∙ ap (pieces_at i files ++◌) (sent_if-suc i j batch (send_into j batch files).0)

taken-pieces :
    (i : ℕ) (b : Bool) (file_id : Text) (c : SendController)
    → pieces_at i (taken_file b file_id c).1.files ≡ pieces_at i c.files
unfolding taken_file
taken-pieces i false file_id c = refl
taken-pieces i true file_id c = pieces-new i c.files _ refl

step-pieces :
    (i : ℕ) (e : Event) (c : SendController)
    → pieces_at i (step e c).files ≡ pieces_at i c.files ++ sent_on i e c
unfolding send_file send
step-pieces i (begins file_id) c =
    taken-pieces i c.takes file_id c ∙ sym (append-nil (pieces_at i c.files))
step-pieces i (sends sender batch) c = pieces-send_into i sender.binary_tx batch c.files
step-pieces i (drops j) c = pieces-drop i j c.files ∙ sym (append-nil (pieces_at i c.files))
step-pieces i stops c = sym (append-nil (pieces_at i c.files))

pieces-run :
    (i : ℕ) (es : List Event) (c : SendController)
    → pieces_at i (run i es c).1.files ≡ pieces_at i c.files ++ (run i es c).0
unfolding run
pieces-run i [] c = sym (append-nil (pieces_at i c.files))
pieces-run i (e ∷ es) c =
    pieces-run i es (step e c)
    ∙ ap (λ l. l ++ (run i es (step e c)).0) (step-pieces i e c)
    ∙ append_assoc (pieces_at i c.files) (sent_on i e c) (run i es (step e c)).0

-- The file whose channel has this number.
abbrev pub id_at : ℕ → List FileChannel → Option Text
id_at i [] = none
id_at zero (f ∷ files) = some f.file_id
id_at (suc i) (f ∷ files) = id_at i files

id-append :
    (i : ℕ) (files : List FileChannel) (f : FileChannel) (file_id : Text)
    → id_at i files ≡ some file_id
    → id_at i (files ++ f ∷ []) ≡ some file_id
id-append i [] f file_id h = cc
id-append zero (g ∷ files) f file_id h = h
id-append (suc i) (g ∷ files) f file_id h = id-append i files f file_id h

id-drop : (i j : ℕ) (files : List FileChannel) → id_at i (drop_reader j files) ≡ id_at i files
id-drop i j [] = refl
id-drop zero zero (f ∷ files) = refl
id-drop (suc i) zero (f ∷ files) = refl
id-drop zero (suc j) (f ∷ files) = refl
id-drop (suc i) (suc j) (f ∷ files) = id-drop i j files

into-id : (b : Bool) (batch : Bytes) (f : FileChannel) → (into b batch f).1.file_id ≡ f.file_id
unfolding into
into-id false batch f = refl
into-id true batch f = refl

id-send_into :
    (i j : ℕ) (batch : Bytes) (files : List FileChannel)
    → id_at i (send_into j batch files).1 ≡ id_at i files
unfolding send_into
id-send_into i j batch [] = refl
id-send_into zero zero batch (f ∷ files) = ap some (into-id f.reads batch f)
id-send_into (suc i) zero batch (f ∷ files) = refl
id-send_into zero (suc j) batch (f ∷ files) = refl
id-send_into (suc i) (suc j) batch (f ∷ files) = id-send_into i j batch files

id-taken :
    (i : ℕ) (b : Bool) (begun file_id : Text) (c : SendController)
    → id_at i c.files ≡ some file_id
    → id_at i (taken_file b begun c).1.files ≡ some file_id
unfolding taken_file
id-taken i false begun file_id c h = h
id-taken i true begun file_id c h = id-append i c.files _ file_id h

id-step :
    (i : ℕ) (e : Event) (c : SendController) (file_id : Text)
    → id_at i c.files ≡ some file_id
    → id_at i (step e c).files ≡ some file_id
unfolding send_file send
id-step i (begins begun) c file_id h = id-taken i c.takes begun file_id c h
id-step i (sends sender batch) c file_id h = id-send_into i sender.binary_tx batch c.files ∙ h
id-step i (drops j) c file_id h = id-drop i j c.files ∙ h
id-step i stops c file_id h = h

id-run :
    (i : ℕ) (es : List Event) (c : SendController) (file_id : Text)
    → id_at i c.files ≡ some file_id
    → id_at i (run i es c).1.files ≡ some file_id
unfolding run
id-run i [] c file_id h = h
id-run i (e ∷ es) c file_id h = id-run i es (step e c) file_id (id-step i e c file_id h)

-- The channel of a file that was begun: it is a new one, for this file, with nothing on it.
abbrev IsFresh : ℕ → Text → List FileChannel → List FileChannel → Type 0
IsFresh i file_id before files =
    (id_at i before ≡ none) × (id_at i files ≡ some file_id) × (pieces_at i files ≡ [])

append-IsFresh :
    (file_id : Text) (files : List FileChannel) (f : FileChannel)
    → f.file_id ≡ file_id
    → f.pieces ≡ []
    → IsFresh (length files) file_id files (files ++ f ∷ [])
append-IsFresh file_id [] f p q = (refl, ap some p, q)
append-IsFresh file_id (g ∷ files) f p q = append-IsFresh file_id files f p q

taken-IsFresh :
    (b : Bool) (file_id : Text) (c c' : SendController) (sender : RtcFileSender)
    → taken_file b file_id c ≡ (ok sender, c')
    → IsFresh sender.binary_tx file_id c.files c'.files
unfolding taken_file
taken-IsFresh false file_id c c' sender h =
    let never : err "channel closed" ≡ ok sender =
      ap (λ (p : Result RtcFileSender × SendController). p.0) h in
    cc
taken-IsFresh true file_id c c' sender h =
    let returned : ok (record { binary_tx = length c.files }) ≡ ok sender =
      ap (λ (p : Result RtcFileSender × SendController). p.0) h in
    let it : record { binary_tx = length c.files } ≡ sender = cc in
    let same : length c.files ≡ sender.binary_tx = ap (λ (x : RtcFileSender). x.binary_tx) it in
    let files = ap (λ (p : Result RtcFileSender × SendController). p.1.files) h in
    rw (← same, ← files) (append-IsFresh file_id c.files _ refl refl)

-- The sender that `send_file` returns is of a channel that no earlier sender has, for the file that
-- was begun. Whatever files the app then begins and sends side by side, and whatever the session
-- drops: this channel stays that file's, and the session is sent on it exactly the pieces of which
-- the app was told that they were sent with this sender, in order.
pub files_apart :
    (file_id : Text) (c c' : SendController) (sender : RtcFileSender) (es : List Event)
    → send_file file_id c ≡ (ok sender, c')
    → let i = sender.binary_tx in
      (id_at i c.files ≡ none)
      × (id_at i (run i es c').1.files ≡ some file_id)
      × (pieces_at i (run i es c').1.files ≡ (run i es c').0)
unfolding send_file
files_apart file_id c c' sender es h =
    let i = sender.binary_tx in
    let (unused, its, empty) = taken-IsFresh c.takes file_id c c' sender h in
    (unused, id-run i es c' file_id its, pieces-run i es c' ∙ ap (λ l. l ++ (run i es c').0) empty)
