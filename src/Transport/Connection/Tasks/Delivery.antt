-- ===== src/Transport/Connection/Tasks/Delivery.antt =====
-- What the tasks of the two ends of a connection deliver together.
use uip.Base.{ℕ, suc, ◌+◌, ◌≡◌, refl, ◌∙◌, List, [], ◌∷◌, map, Bool, true, All, arith}
use uip.Data.Identifier.{Identifier}
use uip.Transport.Codec.{ByteBuf, Frame, ping, pong, data_frame, encode}
use uip.Transport.Codec.Wire.{IsFrame}
use uip.Transport.Codec.Stream.{feed, flatten, encode_all, feed-encode_all}
use uip.Transport.Connection.{send_frame, send}
use uip.Transport.Connection.Tasks.{frame, running, Delivered, read_task, queued, write_task}
use uip.World.{World, Env, Connection, Trace, frame_sent}

-- The data frames among frames, as messages from a peer, latest first before `out`.
abbrev pub deliveries : Identifier → List Frame → List Delivered → List Delivered
deliveries id [] out = out
deliveries id (ping ∷ fs) out = deliveries id fs out
deliveries id (pong ∷ fs) out = deliveries id fs out
deliveries id (data_frame s d p ∷ fs) out =
    deliveries id fs (record { host_id = id; src_port = s; dst_port = d; payload = p } ∷ out)

abbrev pub pings : List Frame → ℕ
pings [] = 0
pings (ping ∷ fs) = suc (pings fs)
pings (pong ∷ fs) = pings fs
pings (data_frame s d p ∷ fs) = pings fs

-- How many pongs were sent, whether or not the channel took them.
abbrev pub pongs : Trace → ℕ
pongs [] = 0
pongs (frame_sent c pong accepted ∷ t) = suc (pongs t)
pongs (_ ∷ t) = pongs t

module _ (env : Env) (data_open : List Delivered → Bool) (conn : Connection) (id : Identifier) where
  -- While the data sink is open, the read task delivers exactly the data frames, in their order and
  -- under the identifier of the peer, answers each ping with one pong, and keeps running.
  pub read_task-deliveries :
      (fs : List Frame) (out : List Delivered) (w : World)
      → ((o : List Delivered) → data_open o ≡ true)
      → let (stopped, delivered, w') = read_task env data_open conn id (map frame fs) out w in
        (stopped ≡ running)
        × (delivered ≡ deliveries id fs out)
        × (pongs w'.trace ≡ pings fs + pongs w.trace)
  unfolding read_task send_frame send
  read_task-deliveries [] out w h = (refl, refl, omega arith)
  read_task-deliveries (ping ∷ fs) out w h =
      let (a, b, c) = read_task-deliveries fs out (send_frame env conn pong w).1 h in
      (a, b, omega arith)
  read_task-deliveries (pong ∷ fs) out w h = read_task-deliveries fs out w h
  read_task-deliveries (data_frame s d p ∷ fs) out w h = rw (h out) (read_task-deliveries fs _ w h)

module _ (bytes : ByteBuf) where
  write_task-encode_all :
      (fs : List Frame) (dst : List ℕ)
      → write_task bytes (map (λ f. queued f true) fs) dst ≡ encode_all bytes fs dst
  unfolding write_task encode_all
  write_task-encode_all [] dst = refl
  write_task-encode_all (f ∷ fs) dst = write_task-encode_all fs (encode bytes f dst).1

  -- Frames with u16 ports and payload lengths that one end's write task writes, cut into chunks in
  -- any way on the stream, are delivered by the other end's read task while its data sink is open:
  -- all their data frames, in order, under the sender's identifier.
  pub write_task-read_task :
      (env : Env) (data_open : List Delivered → Bool) (conn : Connection) (id : Identifier)
      (fs : List Frame) (chunks : List (List ℕ)) (w : World)
      → ((o : List Delivered) → data_open o ≡ true)
      → All IsFrame fs
      → flatten chunks ≡ write_task bytes (map (λ f. queued f true) fs) []
      → (read_task env data_open conn id (map frame (feed bytes [] chunks).0) [] w).1
        ≡ deliveries id fs []
  write_task-read_task env data_open conn id fs chunks w h frames e =
      rw (feed-encode_all bytes fs chunks frames (e ∙ write_task-encode_all fs []))
        (read_task-deliveries env data_open conn id fs [] w h).1
