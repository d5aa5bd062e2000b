-- ===== src/Rtc/Transfer/Sound.antt =====
-- No file reaches the app without its token.
use magic_share.Base.{
  ℕ, zero, suc, ◌≡◌, refl, sym, ap, ◌∙◌, ◌⊎◌, inl, inr, true, Option, some, none, List, [], ◌∷◌,
  ◌++◌, append_assoc, map, number_eq, list_eq, ◌==◌, Result, ok, err, All, All-append, Bool-cases,
  Option-cases, list_test_iff,
}
use magic_share.Exec.{Exec, continue}
use magic_share.Map.{HashMap, get}
use magic_share.Rtc.{Bytes, DataChannelMessage, is_delimiter}
use magic_share.Rtc.Io.{Io, Text, Codec, RtcFile, RtcSendFileResponse}
use magic_share.Rtc.Transfer.{
  RtcSendFileHeaderRequest, RtcFileState, FileSizes, Round, close_file, start_file, check_token,
  open_file, receive_string, receive_piece, receive_message, receive_files, put, after_round,
}

abbrev pub ids : List RtcFile → List Text
ids = map λ f. f.file_id

All-map :
    {A : Type 0} {P Q : A → Type 0} (xs : List A) (f : (a : A) → P a → Q a) → All P xs → All Q xs
All-map [] f p = tt
All-map (x ∷ xs) f (p, ps) = (f x p, All-map xs f ps)

-- The files published between two worlds, each of which has the property.
abbrev pub Gains : (Text → Type 0) → Io → Io → Type 0
Gains P io io' = (new : List Text) × (ids io'.received ≡ new ++ ids io.received) × All P new

module _ (P : Text → Type 0) where
  Gains-trans : (a b c : Io) → Gains P a b → Gains P b c → Gains P a c
  Gains-trans a b c (new, e, all) (new', e', all') = (
    new' ++ new,
    e' ∙ ap (◌++◌ new') e ∙ sym (append_assoc new' new (ids a.received)),
    All-append P new' new all' all,
  )

  Gains-continue :
      {A B : Type 0} (got : Result A) (next : A → Exec Io B) (io w : Io)
      → Gains P io w
      → ((a : A) (v : Io) → Gains P v (next a v).1)
      → Gains P io (continue got next w).1
  Gains-continue (ok a) next io w first h = Gains-trans io w (next a w).1 first (h a w)
  Gains-continue (err e) next io w first h = first

round-Gains :
    (P : Text → Type 0) (loop : Option RtcFileState → Exec Io (Unit {0}))
    → ((state : Option RtcFileState) (io : Io) → Gains P io (loop state io).1)
    → (round : Round) (io : Io) → Gains P io (after_round loop round io).1
round-Gains P loop h Round.stop io = ([], refl, tt)
round-Gains P loop h (Round.go state) io = h state io

put_keeps :
    (piece : Bytes) (io : Io) (files : List RtcFile) (n : ℕ)
    → io.received ≡ files
    → ids (put piece io files n).1.received ≡ ids io.received
put_keeps piece io [] n e = refl
put_keeps piece io (f ∷ fs) zero e = refl
put_keeps piece io (f ∷ fs) (suc n) e = rw e refl

module _ (header : Codec RtcSendFileHeaderRequest) (response : RtcSendFileResponse → Bytes)
    (tokens : HashMap Text Text) (sizes : FileSizes) where
  -- The message is a header for the file, with the token that was issued for it.
  abbrev pub Announces : DataChannelMessage → Text → Type 0
  Announces msg id =
      (msg.is_string ≡ true)
      × (token : Text) × (header.decode msg.payload ≡ some (record { id = id; token = token }))
      × (get tokens id ≡ some token)

  abbrev pub Announced : List DataChannelMessage → Text → Type 0
  Announced [] id = ⊥
  Announced (msg ∷ rest) id = Announces msg id ⊎ Announced rest id

  closed_keeps :
      (id : Text) (io : Io) (results : List RtcSendFileResponse) (n : ℕ)
      → (close_file header response tokens sizes id
          (record io { file_results = results; capacity = n })).1.received
        ≡ io.received
  unfolding close_file
  closed_keeps id io [] zero = refl
  closed_keeps id io [] (suc n) = refl
  closed_keeps id io (r ∷ rs) zero = refl
  closed_keeps id io (r ∷ rs) (suc n) = refl

  start-Gains :
      (P : Text → Type 0) (id : Text) (size : Option ℕ) (io : Io)
      → P id
      → Gains P io (start_file header response tokens sizes id size io).1
  unfolding start_file
  start-Gains P id none io p = ([], refl, tt)
  start-Gains P id (some size) io p = (id ∷ [], refl, (p, tt))

  open-Gains :
      (msg : DataChannelMessage) (io : Io)
      → msg.is_string ≡ true
      → Gains (Announces msg) io (open_file header response tokens sizes msg.payload io).1
  unfolding open_file check_token
  open-Gains msg io s = elim (Option-cases (header.decode msg.payload)) [
    | inl d ↦ rw d ([], refl, tt)
    | inr (h, d) ↦ elim (Option-cases (get tokens h.id)) [
      | inl e ↦ rw (d, e) ([], refl, tt)
      | inr (token, e) ↦ elim (Bool-cases (h.token == token)) [
        | inl same ↦
            let t : h.token ≡ token = (list_test_iff h.token token).0 same in
            let announces : Announces msg h.id = (s, token, d ∙ rw t refl, e) in
            rw (d, e, same) (start-Gains (Announces msg) h.id (get sizes h.id) io announces)
        | inr other ↦ rw (d, e, other) ([], refl, tt)
      ]
    ]
  ]

  string-Gains :
      (msg : DataChannelMessage) (state : Option RtcFileState) (io : Io)
      → msg.is_string ≡ true
      → Gains (Announces msg) io (receive_string header response tokens sizes msg state io).1
  unfolding receive_string
  string-Gains msg none io s = open-Gains msg io s
  string-Gains msg (some state) io s =
      let closed = close_file header response tokens sizes state.file_id io in
      Gains-continue (Announces msg) closed.0 _ io closed.1
        ([], ap ids (closed_keeps state.file_id io io.file_results io.capacity), tt)
        (λ u v. elim (Bool-cases (is_delimiter msg)) [
          | inl d ↦ rw d ([], refl, tt)
          | inr d ↦ rw d (open-Gains msg v s)
        ])

  piece-Gains :
      (P : Text → Type 0) (piece : Bytes) (state : Option RtcFileState) (io : Io)
      → Gains P io (receive_piece header response tokens sizes piece state io).1
  unfolding receive_piece
  piece-Gains P piece none io = ([], refl, tt)
  piece-Gains P piece (some state) io =
      let put_in = put piece io io.received io.appetite in
      Gains-continue P put_in.0 _ io put_in.1
        ([], put_keeps piece io io.received io.appetite refl, tt) (λ u v. ([], refl, tt))

  message-Gains :
      (msg : DataChannelMessage) (state : Option RtcFileState) (io : Io)
      → Gains (Announces msg) io (receive_message header response tokens sizes msg state io).1
  unfolding receive_message
  message-Gains msg state io = elim (Bool-cases msg.is_string) [
    | inl s ↦ simp s (string-Gains msg state io s)
    | inr s ↦ simp s (piece-Gains (Announces msg) msg.payload state io)
  ]

  -- Whatever messages arrive, every file that the receiving loop publishes to the app was
  -- announced by one of them: a text message that decodes to a header with the file's id and the
  -- token that the receiver issued for this id. Files that were there before stay.
  pub receive_files_sound :
      (msgs : List DataChannelMessage) (state : Option RtcFileState) (io : Io)
      → Gains (Announced msgs) io (receive_files header response tokens sizes msgs state io).1
  unfolding receive_files
  receive_files_sound [] state io = ([], refl, tt)
  receive_files_sound (msg ∷ rest) state io =
      let got = receive_message header response tokens sizes msg state io in
      let (new, e, all) = message-Gains msg state io in
      Gains-continue (Announced (msg ∷ rest)) got.0 _ io got.1
        (new, e, All-map new (λ id p. inl p) all)
        (round-Gains (Announced (msg ∷ rest)) (receive_files header response tokens sizes rest)
          λ state' v.
            let (new', e', all') = receive_files_sound rest state' v in
            (new', e', All-map new' (λ id p. inr p) all'))
