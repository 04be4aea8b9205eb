-- ===== src/Transport/Connection/Link.antt =====
-- The three tasks of a connection (network/transport/connection.rs) interleaved with each other and with
-- the handlers that send on it, over the channel between them. The channel is tokio's, and a parameter.
pub mod Order
use uip.Base.{ℕ, ◌≤◌, ◌≡◌, List, [], ◌∷◌, ◌++◌, Option, none, some, Bool, true, false, length}
use uip.Data.Identifier.{Identifier}
use uip.Transport.Codec.{ByteBuf, Frame, ping, pong, data_frame, encode}
use uip.Transport.Connection.Tasks.{Delivered, write_task, queued}

-- `tokio::sync::mpsc::channel(10)`: `send` gives `none` while the channel is full, where the sender waits,
-- and `recv` gives `none` while it is empty, where the receiver waits.
pub record Mpsc (A : Type 0) : Type 1 where
  pub Channel : Type 0
  pub channel : ℕ → Channel
  pub send : A → Channel → Option Channel
  pub recv : Channel → Option (A × Channel)
  -- the messages that wait, oldest first
  pub contents : Channel → List A
  pub contents-channel : (n : ℕ) → contents (channel n) ≡ []
  pub contents-send :
      (a : A) (c c' : Channel) → send a c ≡ some c' → contents c' ≡ contents c ++ (a ∷ [])
  pub contents-recv :
      (a : A) (c c' : Channel) → recv c ≡ some (a, c') → contents c ≡ a ∷ contents c'

module _ (mpsc : Mpsc Frame) where
  open mpsc use {Channel, channel, send, recv}

  -- The channel of the connection, which of the tasks run, the bytes on the stream, and what reached the
  -- data sink, latest first. `accepted` are the frames that the channel took and `written` those that the
  -- write task wrote, oldest first; `received` are the frames that the read task read, latest first.
  pub record Link : Type 0 where
    pub sink : Channel
    pub reading : Bool
    pub writing : Bool
    pub pinging : Bool
    pub stream : List ℕ
    pub out : List Delivered
    pub accepted : List Frame
    pub written : List Frame
    pub received : List Frame

  unfoldable pub from_tls_stream : Link
  from_tls_stream = record {
    sink = channel 10;
    reading = true;
    writing = true;
    pinging = true;
    stream = [];
    out = [];
    accepted = [];
    written = [];
    received = [];
  }

  -- A send that waited until `c` had room.
  unfoldable pub sent : Frame → Channel → Link → Link
  sent f c l = record l { sink = c; accepted = l.accepted ++ f ∷ [] }

  -- The read task, with `remote_id`: what it does with a frame once a send on the data sink, or on the
  -- channel, is through. A failed send on the data sink, which `false` stands for, loses the message and
  -- ends the task.
  unfoldable pub read_data : Identifier → ℕ → ℕ → List ℕ → Bool → Link → Link
  read_data remote_id src_port dst_port payload false l = record l {
    reading = false;
    received = data_frame src_port dst_port payload ∷ l.received;
  }
  read_data remote_id src_port dst_port payload true l = record l {
    out =
        record { host_id = remote_id; src_port = src_port; dst_port = dst_port; payload = payload }
        ∷ l.out;
    received = data_frame src_port dst_port payload ∷ l.received;
  }

  unfoldable pub read_pong : Link → Link
  read_pong l = record l { received = pong ∷ l.received }

  unfoldable pub read_ping : Option Channel → Link → Link
  unfolding sent
  read_ping none l = record l { received = ping ∷ l.received }
  read_ping (some c) l = sent pong c (record l { received = ping ∷ l.received })

  unfoldable pub stop_reading : Link → Link
  stop_reading l = record l { reading = false }

  module _ (bytes : ByteBuf) where
    -- A round of the write task that took `f` from the channel, now `c`.
    unfoldable pub write_frame : Frame → Channel → Bool → Link → Link
    unfolding write_task
    write_frame f c true l = record l {
      sink = c;
      stream = write_task bytes (queued f true ∷ []) l.stream;
      written = l.written ++ f ∷ [];
    }
    write_frame f c false l = record l {
      sink = c;
      stream = write_task bytes (queued f false ∷ []) l.stream;
      writing = false;
    }

    -- A send waits for room while the write task runs, and fails, and is only logged, once it has ended.
    pub data Step (remote_id : Identifier) (l : Link) : Link → Type 0 where
      sends :
          (f : Frame) (c : Channel)
          → l.writing ≡ true
          → send f l.sink ≡ some c
          → Step remote_id l (sent f c l)
      pings :
          (c : Channel)
          → l.pinging ≡ true
          → l.writing ≡ true
          → send ping l.sink ≡ some c
          → Step remote_id l (sent ping c l)
      reads_data :
          (src_port dst_port : ℕ) (payload : List ℕ) (accepted : Bool)
          → l.reading ≡ true
          → Step remote_id l (read_data remote_id src_port dst_port payload accepted l)
      reads_pong : l.reading ≡ true → Step remote_id l (read_pong l)
      reads_ping :
          (c : Channel)
          → l.reading ≡ true
          → l.writing ≡ true
          → send pong l.sink ≡ some c
          → Step remote_id l (read_ping (some c) l)
      reads_ping_late : l.reading ≡ true → l.writing ≡ false → Step remote_id l (read_ping none l)
      stops_reading : l.reading ≡ true → Step remote_id l (stop_reading l)
      writes :
          (f : Frame) (c : Channel) (accepted : Bool)
          → l.writing ≡ true
          → recv l.sink ≡ some (f, c)
          → Step remote_id l (write_frame f c accepted l)
      stops_writing : l.reading ≡ false → Step remote_id l (record l { writing = false })
      stops_pinging : l.reading ≡ false → Step remote_id l (record l { pinging = false })

    pub data Reach (remote_id : Identifier) : Link → Type 0 where
      initial : Reach remote_id from_tls_stream
      next : {l m : Link} → Reach remote_id l → Step remote_id l m → Reach remote_id m
