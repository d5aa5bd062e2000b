-- ===== src/Rtc/Transfer/Wire.antt =====
-- What files look like on the wire, and what each side needs to carry them.
use magic_share.Base.{ℕ, suc, ◌≡◌, some, List, [], ◌∷◌, ◌++◌, map, number_eq, list_eq}
use magic_share.Map.{HashMap, get}
use magic_share.Rtc.{Bytes, DataChannelMessage, text, binary, delimiter}
use magic_share.Rtc.Io.{Text, Codec, RtcFile, RtcSendFileResponse}
use magic_share.Rtc.Transfer.{RtcSendFileHeaderRequest, FileSizes, file_response, file_error}

-- A file with what the two peers hold on it: its token, its size, and the user's verdict on it.
pub record Item : Type 0 where
  pub file : RtcFile
  pub token : Text
  pub size : ℕ
  pub verdict : RtcSendFileResponse

abbrev pub header_of : RtcFile → Text → RtcSendFileHeaderRequest
header_of file token = record { id = file.file_id; token = token }

abbrev pub wire :
    Codec RtcSendFileHeaderRequest → List DataChannelMessage → List Item → List DataChannelMessage
wire json last [] = delimiter ∷ last
wire json last (x ∷ xs) =
    text (json.encode (header_of x.file x.token)) ∷ (map binary x.file.pieces ++ wire json last xs)

-- `n` more than the items of a list.
abbrev pub beyond {ℓ} : {A : Type ℓ} → List A → ℕ → ℕ
beyond [] n = n
beyond (x ∷ xs) n = suc (beyond xs n)

abbrev pub beyond_pieces : List Item → ℕ → ℕ
beyond_pieces [] n = n
beyond_pieces (x ∷ xs) n = beyond x.file.pieces (beyond_pieces xs n)

abbrev pub verdicts : List Item → List RtcSendFileResponse → List RtcSendFileResponse
verdicts [] more = more
verdicts (x ∷ xs) more = x.verdict ∷ verdicts xs more

-- The files of the items, newest first, before the files received earlier.
abbrev pub newest_first : List Item → List RtcFile → List RtcFile
newest_first [] old = old
newest_first (x ∷ xs) old = newest_first xs (x.file ∷ old)

abbrev pub answers : (RtcSendFileResponse → Bytes) → List Item → List DataChannelMessage
answers encode [] = []
answers encode (x ∷ xs) =
    text (encode (file_response x.file.file_id (file_error (some x.verdict)))) ∷ answers encode xs

-- The receiver has issued the item's token for a file of its list.
abbrev pub Expected : HashMap Text Text → FileSizes → Item → Type 0
Expected tokens sizes x =
    (get tokens x.file.file_id ≡ some x.token) × (get sizes x.file.file_id ≡ some x.size)
