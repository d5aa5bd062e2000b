-- ===== src/Rtc/Session/Carried.antt =====
-- The messages of a session between peers that trust each other.
use magic_share.Base.{
  ℕ, suc, ◌≡◌, refl, ap, ◌∙◌, ◌⊎◌, inl, inr, Option, some, none, List, [], ◌∷◌, ◌++◌, map,
  append_assoc, append-nil, ok, number_eq, list_eq, ==-refl,
}
use magic_share.Crypto.Token.{VerifyingTokenKey, to_verifying_key, generate_token_nonce}
use magic_share.Crypto.Token.Roundtrip.{verify_nonce-generate}
use magic_share.Rtc.{Bytes, DataChannelMessage, text, binary, delimiter}
use magic_share.Rtc.Chunks.Roundtrip.{receive-map, send_string_as_stream}
use magic_share.Rtc.Io.{Io}
use magic_share.Rtc.Messages.{RtcTokenResponse}
use magic_share.Rtc.Nonce.{nonce_message}
use magic_share.Rtc.Transfer.Wire.{beyond}
use magic_share.Rtc.Transfer.{send_piece}
use magic_share.Rtc.Transfer.Send.{send_chunks}
use magic_share.Rtc.Session.{Crates, send_whole, receive_whole, verify_expected, verify_token}

-- The text is sent in these chunks with a delimiter behind them, and received from them.
pub record Carries (string : Bytes) (cs : List Bytes) : Type 0 where
  pub sends :
      (k : ℕ) (io : Io)
      → send_whole string (record io { capacity = beyond cs (suc k) }) ≡ (
        ok tt,
        record io { capacity = k; outbox = io.outbox ++ (map binary cs ++ delimiter ∷ []) },
      )
  pub receives :
      (io : Io) (rest : List DataChannelMessage)
      → receive_whole (record io { inbox = map binary cs ++ delimiter ∷ rest })
        ≡ (ok string, record io { inbox = rest })

pub string-Carries : (string : Bytes) → (cs : List Bytes) × Carries string cs
unfolding send_whole receive_whole
string-Carries string =
    let (cs, whole, _, run) = send_chunks (string ∷ []) in
    (
      cs,
      record {
        sends = λ k io.
            rw (send_string_as_stream tt string send_piece, run (suc k) io)
              (ap
                (λ (out : List DataChannelMessage).
                  (ok tt, record io { capacity = k; outbox = out }))
                (append_assoc io.outbox (map binary cs) (delimiter ∷ [])));
        receives = λ io rest. rw (receive-map cs (b'0' ∷ []) rest, whole ∙ append-nil string) refl;
      },
    )

-- The peer expects nothing, or the key that belongs to this signing key.
abbrev pub Expects : (c : Crates) → Option VerifyingTokenKey → c.ed.SigningKey → Type 0
Expects c expected key = (expected ≡ none) ⊎ (expected ≡ some (to_verifying_key c.ed key))

module _ (c : Crates) where
  pub expected_passes :
      (expected : Option VerifyingTokenKey) (key : c.ed.SigningKey) (nonce : Bytes) (io : Io)
      → Expects c expected key
      → verify_expected c expected (generate_token_nonce c.b64 c.sha256 c.ed key nonce) nonce io
        ≡ (ok tt, io)
  unfolding verify_expected verify_token
  expected_passes expected key nonce io (inl e) = rw e refl
  expected_passes expected key nonce io (inr e) =
      rw (e, verify_nonce-generate c.b64 c.sha256 c.ed key nonce nonce, ==-refl nonce) refl

  -- The messages of the authentication.
  abbrev pub token_message : c.ed.SigningKey → Bytes → DataChannelMessage
  token_message key nonce =
      text (c.json.token_request.encode (generate_token_nonce c.b64 c.sha256 c.ed key nonce))

  abbrev pub accepted_message : c.ed.SigningKey → Bytes → DataChannelMessage
  accepted_message key nonce = text (
      c.json.token_response.encode
        (RtcTokenResponse.accepted (generate_token_nonce c.b64 c.sha256 c.ed key nonce)))

  abbrev pub nonce_text : Bytes → DataChannelMessage
  nonce_text = nonce_message c.json.nonce c.b64
