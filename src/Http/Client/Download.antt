-- ===== src/Http/Client/Download.antt =====
-- core/src/http/client/v2.rs `download_to_writer`: a response is written away piece by piece.
use magic_share.Base.{
  ℕ, ◌+◌, ◌%◌, ◌^◌, ◌<◌, ◌≡◌, refl, ap, ap₂, sym, ◌∙◌, ◌⊎◌, inl, inr, append-nil, String, Option,
  none, some, List, [], ◌∷◌, ◌++◌, map, Result, ok, err, length, length-append, concat, arith,
}
use magic_share.Crypto.{Bytes, Text}
use magic_share.Http.Messages.{ProtocolType}
use magic_share.Http.Reqwest.{ClientError, Outcome, success, failure, Reply}
use magic_share.Exec.{Exec, pure, ◌>>◌}

-- tokio's writer, and what reqwest's stream of a response yields: pieces, or an error.
module _ {W : Type 0} (write_all : Bytes → Exec W (Unit {0})) (flush : Exec W (Unit {0})) where
  flushed : ℕ → Result (Unit {0}) × W → Outcome ℕ × W
  flushed total (err e, w) = (failure ClientError.io, w)
  flushed total (ok u, w) = (success total, w)

  -- The loop over the stream. `total_bytes` is a `u64`; a build that checks overflow would panic
  -- where it wraps.
  pub copy : List (Option Bytes) → ℕ → W → Outcome ℕ × W
  unfolding flushed
  copy [] total w = flushed total (flush w)
  copy (none ∷ rest) total w = (failure ClientError.reqwest, w)
  copy (some chunk ∷ rest) total w = elim (write_all chunk w).0 [
    | err e ↦ (failure ClientError.io, (write_all chunk w).1)
    | ok u ↦ copy rest ((total + length chunk) % 2 ^ 64) (write_all chunk w).1
  ]

  abbrev pub to_writer : (Reply → List (Option Bytes)) → Outcome Reply → W → Outcome ℕ × W
  to_writer bytes_stream (failure e) w = (failure e, w)
  to_writer bytes_stream (success response) w = copy (bytes_stream response) 0 w

  -- `download` is the call of the client.
  unfoldable pub download_to_writer :
      (ProtocolType → Text → ℕ → Text → Text → Outcome Reply)
      → (Reply → List (Option Bytes))
      → ProtocolType
      → Text
      → ℕ
      → Text
      → Text
      → W
      → Outcome ℕ × W
  download_to_writer download bytes_stream protocol ip port session_id file_id w =
      to_writer bytes_stream (download protocol ip port session_id file_id) w

  result_cases : (r : Result (Unit {0})) → (r ≡ ok tt) ⊎ ((e : String) × (r ≡ err e))
  result_cases (ok u) = inl refl
  result_cases (err e) = inr (e, refl)

  -- Pieces written one after the other, to the first that fails.
  abbrev pub write_each : List Bytes → Exec W (Unit {0})
  write_each [] = pure tt
  write_each (c ∷ cs) = write_all c >> write_each cs

  copy-written :
      (cs : List Bytes) (rest : List (Option Bytes)) (total : ℕ) (w w' : W)
      → total < 2 ^ 64
      → write_each cs w ≡ (ok tt, w')
      → copy (map some cs ++ rest) total w ≡ copy rest ((total + length (concat cs)) % 2 ^ 64) w'
  unfolding copy
  copy-written [] rest total w w' fits h =
      ap₂ (copy rest) (omega arith) (ap (λ (r : Result (Unit {0}) × W). r.1) h)
  copy-written (c ∷ cs) rest total w w' fits h = elim (result_cases (write_all c w).0) [
    | inl done ↦ rw done (
        copy-written cs rest ((total + length c) % 2 ^ 64) (write_all c w).1 w' (omega arith)
          (rw done at h)
        ∙ ap (λ n. copy rest n w') (rw (length-append c (concat cs)) (omega arith)))
    | inr (e, failed) ↦ cc (rw failed at h)
  ]

  -- If every piece of the response arrives and the writer takes all, the pieces are written in
  -- order, flushed, and the call returns the number of their bytes, as a `u64`. If the response
  -- breaks off behind some pieces, these are written and the call fails.
  pub download_written :
      (download : ProtocolType → Text → ℕ → Text → Text → Outcome Reply)
      (bytes_stream : Reply → List (Option Bytes)) (protocol : ProtocolType) (ip : Text) (port : ℕ)
      (session_id file_id : Text) (response : Reply) (cs : List Bytes) (rest : List (Option Bytes))
      (w w' w'' : W)
      → download protocol ip port session_id file_id ≡ success response
      → write_each cs w ≡ (ok tt, w')
      → flush w' ≡ (ok tt, w'')
      → (bytes_stream response ≡ map some cs
          → download_to_writer download bytes_stream protocol ip port session_id file_id w
            ≡ (success (length (concat cs) % 2 ^ 64), w''))
        × (bytes_stream response ≡ map some cs ++ none ∷ rest
            → download_to_writer download bytes_stream protocol ip port session_id file_id w
              ≡ (failure ClientError.reqwest, w'))
  unfolding download_to_writer copy flushed
  download_written download bytes_stream protocol ip port session_id file_id response cs rest w w'
        w'' got written done =
      (
        λ all.
            rw (got, all)
              (ap (λ l. copy l 0 w) (sym (append-nil (map some cs)))
                ∙ copy-written cs [] 0 w w' (omega arith) written
                ∙ ap₂ flushed (omega arith) done),
        λ broken. rw (got, broken) (copy-written cs (none ∷ rest) 0 w w' (omega arith) written),
      )
