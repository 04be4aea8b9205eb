-- ===== src/Transport/Connection/Tasks.antt =====
-- The three tasks of a connection (network/transport/connection.rs), each over what its rounds wait
-- for.
pub mod Delivery
use uip.Base.{ℕ, List, [], ◌∷◌, Bool, true, false, Result, ok, err}
use uip.Data.Identifier.{Identifier}
use uip.Transport.Codec.{ByteBuf, Frame, ping, pong, data_frame, encode}
use uip.Transport.Connection.{send_frame}
use uip.World.{Connection, Env, M, World}

-- What a round of the read task waits for: a decoded frame, an error of the stream or the codec, the
-- end of the stream, or the 20 seconds' timeout.
pub data Incoming : Type 0 where
  frame : Frame → Incoming
  failed ended timed_out : Incoming

pub data Stopped : Type 0 where
  running receive_failed stream_ended connection_timed_out upstream_closed : Stopped

-- What is sent to `data_sink`.
pub record Delivered : Type 0 where
  pub host_id : Identifier
  pub src_port : ℕ
  pub dst_port : ℕ
  pub payload : List ℕ

-- `data_open` is whether the data sink takes a message, after those in the list (latest first). When
-- the task stops it drops `close_sender`, which ends the other two tasks as a signal on it does.
module _ (env : Env) (data_open : List Delivered → Bool) (conn : Connection)
    (remote_id : Identifier) where
  unfoldable pub read_task :
      List Incoming → List Delivered → World → Stopped × List Delivered × World
  read_task [] out w = (running, out, w)
  read_task (failed ∷ rest) out w = (receive_failed, out, w)
  read_task (ended ∷ rest) out w = (stream_ended, out, w)
  read_task (timed_out ∷ rest) out w = (connection_timed_out, out, w)
  read_task (frame ping ∷ rest) out w = read_task rest out (send_frame env conn pong w).1
  read_task (frame pong ∷ rest) out w = read_task rest out w
  read_task (frame (data_frame src_port dst_port payload) ∷ rest) out w = elim (data_open out) [
    | true ↦
        read_task rest
          (record {
            host_id = remote_id;
            src_port = src_port;
            dst_port = dst_port;
            payload = payload;
          }
            ∷ out)
          w
    | false ↦ (upstream_closed, out, w)
  ]

-- What a round of the write task waits for, and whether the stream then takes the frame.
pub data Outgoing : Type 0 where
  queued : Frame → Bool → Outgoing
  all_senders_gone close_changed : Outgoing

-- The bytes of the stream after the frames that were written.
module _ (bytes : ByteBuf) where
  unfoldable pub write_task : List Outgoing → List ℕ → List ℕ
  write_task [] dst = dst
  write_task (all_senders_gone ∷ rest) dst = dst
  write_task (close_changed ∷ rest) dst = dst
  write_task (queued f true ∷ rest) dst = write_task rest (encode bytes f dst).1
  write_task (queued f false ∷ rest) dst = dst

-- What a round of the ping task waits for: a tick of the 15 seconds' interval, or the close signal.
pub data Tick : Type 0 where
  tick close_changed : Tick

unfoldable pub ping_task : Env → Connection → List Tick → World → World
ping_task env conn [] w = w
ping_task env conn (tick ∷ rest) w = ping_task env conn rest (send_frame env conn ping w).1
ping_task env conn (close_changed ∷ rest) w = w
