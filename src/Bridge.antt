-- ===== src/Bridge.antt =====
-- app/rust/src/util/bytes.rs: the bytes of a received file, buffered on their way to the app.
pub mod Batches
pub mod Delivery
pub mod Keys
pub mod Send
pub mod Connect
pub mod Receive
pub mod Pins
use magic_share.Base.{ℕ, Bool, true, false, List, [], ◌∷◌, ◌++◌, leb, if◌then◌else◌, length}
use magic_share.Exec.{Exec, pure, ◌>>◌}

abbrev pub Bytes : Type 0
Bytes = List ℕ

module _ {S : Type 0} (size : ℕ) (send : Bytes → Exec S (Unit {0})) where
  send_if : Bool → Bytes → Exec S (Unit {0})
  send_if true batch = send batch
  send_if false batch = pure tt

  send_rest : Bytes → Exec S (Unit {0})
  send_rest [] = pure tt
  send_rest (b ∷ buffer) = send (b ∷ buffer)

  -- The spawned task, over what the input yields until it is closed.
  buffer_loop : Bytes → List Bytes → Exec S (Unit {0})
  unfolding send_if send_rest
  buffer_loop buffer [] = send_rest buffer
  buffer_loop buffer (data_in ∷ rx) =
      let full = leb size (length (buffer ++ data_in)) in
      send_if full (buffer ++ data_in) >> buffer_loop (if full then [] else (buffer ++ data_in)) rx

-- `BUFFER_SIZE`: 1 MiB.
abbrev pub buffer_size : ℕ
buffer_size = 1048576

pub buffer_receiver : {S : Type 0} → List Bytes → (Bytes → Exec S (Unit {0})) → Exec S (Unit {0})
unfolding buffer_loop
buffer_receiver rx_input send = buffer_loop buffer_size send [] rx_input
