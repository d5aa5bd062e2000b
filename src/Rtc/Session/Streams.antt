-- ===== src/Rtc/Session/Streams.antt =====
-- What two peers put on the channel in a session, and in which order.
use magic_share.Base.{◌≡◌, true, some, none, List, [], ◌∷◌, ◌++◌, map, number_eq, list_eq}
use magic_share.Crypto.{validate_nonce}
use magic_share.Rtc.{Bytes, DataChannelMessage, binary, delimiter}
use magic_share.Rtc.Io.{Text}
use magic_share.Rtc.Transfer.Wire.{Item, wire, answers}
use magic_share.Rtc.Session.{Crates}
use magic_share.Rtc.Session.Carried.{Expects, nonce_text, token_message, accepted_message}
use magic_share.Rtc.Session.Sender.{SenderConfig}
use magic_share.Rtc.Session.Receiver.{ReceiverConfig}

-- The two ends can hold a session: their nonces are of a valid length, neither asks for a PIN,
-- each expects nothing or the other's key, and both apps do their part.
pub record Compatible (c : Crates) (cs : SenderConfig c) (cr : ReceiverConfig c)
    (wanted : List Text) : Type 0 where
  pub sender_valid : validate_nonce cs.local_nonce ≡ true
  pub receiver_valid : validate_nonce cr.local_nonce ≡ true
  pub sender_expects : Expects c cs.expecting_public_key cr.signing_key
  pub receiver_expects : Expects c cr.expecting_public_key cs.signing_key
  pub no_sender_pin : cs.pin ≡ none
  pub no_receiver_pin : cr.pin ≡ none
  pub waits : cs.waits_for_selection ≡ true
  pub takes : cr.takes_files ≡ true
  pub chosen : cr.selected ≡ some (some wanted)

module _ (c : Crates) (cs : SenderConfig c) (cr : ReceiverConfig c) where
  abbrev pub nonce : Bytes
  nonce = cs.local_nonce ++ cr.local_nonce

  -- What the sender puts on the channel: its nonce and token, the file list, and the files.
  abbrev pub from_sender : List Bytes → List Item → List DataChannelMessage
  from_sender list_chunks ys =
      nonce_text c cs.local_nonce
      ∷ token_message c cs.signing_key nonce
      ∷ (map binary list_chunks ++ delimiter ∷ wire c.json.header [] ys)

  -- What the receiver puts on it: its nonce and token, the tokens of the files that the user
  -- wants, and an answer for each file.
  abbrev pub from_receiver : List Bytes → List Item → List DataChannelMessage
  from_receiver token_chunks xs =
      nonce_text c cr.local_nonce
      ∷ accepted_message c cr.signing_key nonce
      ∷ (map binary token_chunks ++ delimiter ∷ answers c.json.encode_response xs)

  -- The order of a session. `send` and `receive` say what a task has sent where the other's stream
  -- is cut: each part follows on a part that is already on its way.
  pub record InTurn (list_chunks token_chunks : List Bytes) (ys : List Item)
      (send receive : List DataChannelMessage → List DataChannelMessage) : Type 0 where
    pub opens : send [] ≡ nonce_text c cs.local_nonce ∷ []
    pub greets : receive (nonce_text c cs.local_nonce ∷ []) ≡ nonce_text c cr.local_nonce ∷ []
    pub proves :
        send (nonce_text c cr.local_nonce ∷ [])
        ≡ nonce_text c cs.local_nonce ∷ token_message c cs.signing_key nonce ∷ []
    pub accepts :
        receive (nonce_text c cs.local_nonce ∷ token_message c cs.signing_key nonce ∷ [])
        ≡ nonce_text c cr.local_nonce ∷ accepted_message c cr.signing_key nonce ∷ []
    pub lists :
        send (nonce_text c cr.local_nonce ∷ accepted_message c cr.signing_key nonce ∷ [])
        ≡ nonce_text c cs.local_nonce
          ∷ token_message c cs.signing_key nonce
          ∷ (map binary list_chunks ++ delimiter ∷ [])
    pub chooses :
        receive (
          nonce_text c cs.local_nonce
          ∷ token_message c cs.signing_key nonce
          ∷ (map binary list_chunks ++ delimiter ∷ []))
        ≡ nonce_text c cr.local_nonce
          ∷ accepted_message c cr.signing_key nonce
          ∷ (map binary token_chunks ++ delimiter ∷ [])
    pub sends :
        send (
          nonce_text c cr.local_nonce
          ∷ accepted_message c cr.signing_key nonce
          ∷ (map binary token_chunks ++ delimiter ∷ []))
        ≡ from_sender list_chunks ys
