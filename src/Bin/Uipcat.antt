-- ===== src/Bin/Uipcat.antt =====
-- bin/uipcat.rs: the client that listens on a port or sends lines to a peer, over the control socket.
pub mod Sending
pub mod Arguments
pub mod Command
pub mod Listening
use uip.Base.{ℕ, List, [], ◌∷◌, Option, none, some, Result, ok, err, ◌++◌, take}
use uip.Data.Identifier.{Identifier}
use uip.Unix.Codec.{Frame, FramePack, bind, data_frame, error}

-- A line of the standard input, or an error of reading it, which ends the loop.
pub data Input : Type 0 where
  line : List ℕ → Input
  read_error : Input

-- The frames that `connect` writes, one for each line.
unfoldable pub connect : Identifier → ℕ → List Input → List Frame
connect remote_id port [] = []
connect remote_id port (line text ∷ rest) =
    data_frame remote_id port text ∷ connect remote_id port rest
connect remote_id port (read_error ∷ rest) = []

-- The frame that `listen` writes first.
unfoldable pub listen_request : ℕ → Frame
listen_request port = bind port

pub data Ended : Type 0 where
  reading unexpected_message parse_panic : Ended

-- What the loop of `listen` logs: the sender, its port and the data. Each element is what one `read`
-- returned, at most 1500 bytes.
pub record Shown : Type 0 where
  pub host_id : Identifier
  pub remote_port : ℕ
  pub payload : List ℕ

unfoldable pub listen : FramePack → List (List ℕ) → Ended × List Shown
listen pack [] = (reading, [])
listen pack (buf ∷ rest) = elim (pack.from_slice buf) [
  | err _ ↦ (parse_panic, [])
  | ok (data_frame host_id remote_port payload) ↦
      let (ended, shown) = listen pack rest in
      (ended, record { host_id = host_id; remote_port = remote_port; payload = payload } ∷ shown)
  | ok (bind _) ↦ (unexpected_message, [])
  | ok (error _) ↦ (unexpected_message, [])
]
