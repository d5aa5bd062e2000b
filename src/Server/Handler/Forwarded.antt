-- ===== src/Server/Handler/Forwarded.antt =====
-- ws_controller.rs `ws_handler`: what a client can write into the forwarded address.
use magic_share.Base.{
  ℕ, ◌≡◌, refl, ap, ◌∙◌, ◌⊎◌, ◌≢◌, Option, none, some, List, [], ◌∷◌, ◌++◌, codes, number_eq,
  list_eq, eqb, All, arith, Bool-cases, inl, inr,
}
use magic_share.Map.{get}
use magic_share.Crypto.{Bytes, Text, Base64}
use magic_share.Crypto.Text.{split, split_plain}
use magic_share.Signaling.{Uuid, ClientInfo, ClientInfoWithoutId}
use magic_share.Server.{Group}
use magic_share.Server.IpGroup.{IpAddr, get_ip_group}
use magic_share.Server.Handler.{
  Std, HeaderMap, last, unwrap_or, forwarded_ip, client_ip, peer_info, upgraded, ws_handler,
}

last-cons : {A : Type 0} (x : A) (l : List A) {t : A} → last l ≡ some t → last (x ∷ l) ≡ some t
last-cons x [] h = cc
last-cons x (y ∷ l) h = h

-- A text with a separator has a first part, and more parts of which the last ends the text.
split_parts :
    (sep : ℕ) (before t : Text)
    → All (λ c. c ≢ sep) t
    → (p : Text) × (ps : List Text) × (split sep (before ++ sep ∷ t) ≡ p ∷ ps) × (last ps ≡ some t)
unfolding split
split_parts sep [] t plain = ([], split sep t, ground arith, ap last (split_plain sep t plain))
split_parts sep (c ∷ before) t plain =
    let (p, ps, e, l) = split_parts sep before t plain in
    elim (Bool-cases (eqb c sep)) [
      | inl h ↦ ([], p ∷ ps, rw (h, e) refl, last-cons p ps l)
      | inr h ↦ (c ∷ p, ps, rw (h, e) refl, l)
    ]

last-split :
    (sep : ℕ) (before t : Text)
    → All (λ c. c ≢ sep) t
    → last (split sep (before ++ sep ∷ t)) ≡ some t
last-split sep before t plain =
    let (p, ps, e, l) = split_parts sep before t plain in ap last e ∙ last-cons p ps l

module _ (std : Std) (b64 : Base64) (json : Text → Option ClientInfoWithoutId) where
  upgraded-inr :
      (headers : HeaderMap) (addr : IpAddr) (o : Option ClientInfo) {g : Group} {peer : ClientInfo}
      → upgraded std b64 json headers addr o ≡ inr (g, peer)
      → (g ≡ get_ip_group (client_ip std b64 json headers addr)) × (o ≡ some peer)
  upgraded-inr headers addr none r = cc
  upgraded-inr headers addr (some p) r = (cc, cc)

  client_ip-line :
      (before seen : Text) (v : Bytes) (rest : HeaderMap) (addr : IpAddr)
      → std.to_str v ≡ some (before ++ b',' ∷ seen)
      → All (λ c. c ≢ b',') seen
      → client_ip std b64 json ((codes "x-forwarded-for", v) ∷ rest) addr
        ≡ unwrap_or (std.parse_ip (std.trim seen)) addr
  unfolding client_ip forwarded_ip get
  client_ip-line before seen v rest addr h plain = rw (h, last-split b',' before seen plain) refl

  client_ip-unreadable :
      (v : Bytes) (rest : HeaderMap) (addr : IpAddr)
      → std.to_str v ≡ none
      → client_ip std b64 json ((codes "x-forwarded-for", v) ∷ rest) addr ≡ addr
  unfolding client_ip forwarded_ip get
  client_ip-unreadable v rest addr h = rw h refl

  -- A proxy appends the address that it sees to the line which a client sent. Where the first line
  -- of this name can be read as a text, the client is put into the group of that address, whatever
  -- it wrote before the last comma, and into the lines of this name that come after; if what the
  -- proxy appended is no address, the group is that of the socket's own address. Where the line
  -- cannot be read (`to_str` fails), the group is that of the socket's own address too. In both cases the client is the peer that the query says.
  pub ws_handler_group :
      (d before seen : Text) (v : Bytes) (rest : HeaderMap) (addr : IpAddr) (new_id : Uuid)
      {g : Group} {peer : ClientInfo}
      → (std.to_str v ≡ some (before ++ b',' ∷ seen)) ⊎ (std.to_str v ≡ none)
      → All (λ c. c ≢ b',') seen
      → ws_handler std b64 json d ((codes "x-forwarded-for", v) ∷ rest) addr new_id ≡ inr (g, peer)
      → (g
          ≡ get_ip_group (elim (std.to_str v) [
            | none ↦ addr
            | some line ↦ unwrap_or (std.parse_ip (std.trim seen)) addr
          ]))
        × (peer_info std b64 json d new_id ≡ some peer)
  unfolding ws_handler
  ws_handler_group d before seen v rest addr new_id (inl h) plain r =
      let (group, found) = upgraded-inr _ addr (peer_info std b64 json d new_id) r in
      (rw h (group ∙ ap get_ip_group (client_ip-line before seen v rest addr h plain)), found)
  ws_handler_group d before seen v rest addr new_id (inr h) plain r =
      let (group, found) = upgraded-inr _ addr (peer_info std b64 json d new_id) r in
      (rw h (group ∙ ap get_ip_group (client_ip-unreadable v rest addr h)), found)
