-- ===== src/Hosts.antt =====
-- Two daemons and a connection from the first to the second: on each side the local half of src/unix/ and
-- the network half of src/network/state.rs, joined by the two loops of src/bin/uipd.rs, and between them
-- the tasks of src/network/transport/connection.rs.
pub mod Near
pub mod Fronts
pub mod Far
pub mod Kept
pub mod Delivery
use uip.Base.{ℕ, ◌≡◌, List, [], ◌∷◌, ◌++◌, some, Bool, true, false, ◌==◌, ◌&&◌, if◌then◌else◌, ite}
use uip.Base.Map.{eq?, values}
use uip.Data.Identifier.{Identifier, identifier_key}
use uip.Network.Peers.{send_frame, deliver_frame, find_connection}
use uip.Network.Quiet.{upstreams}
use uip.Protocol.{MessagePack}
use uip.Transport.Codec.{ByteBuf, Frame, ping, pong, data_frame}
use uip.Transport.Codec.Stream.{feed}
use uip.Transport.Connection.Link.{Mpsc, Link, from_tls_stream, sent}
use uip.Transport.Connection.Link
use uip.Transport.Connection.Tasks.{Delivered, frame, read_task}
use uip.Unix.State.{Event, upstream_sent, locally_sent}
use uip.Unix.State
use uip.Unix.State.Programs
use uip.Unix.State.Programs.{Label, bound, sent as sent_label, reached, unbound, delivered, start}
use uip.World
use uip.World.{World, Connection, frame_sent}

-- The ports and the payload of a message between programs.
pub record Content : Type 0 where
  pub src_port : ℕ
  pub dst_port : ℕ
  pub payload : List ℕ

-- What the local half passed on for a host, oldest first: the channel to the network half keeps the order.
abbrev pub passed_on : Identifier → List Event → List Content
passed_on host [] = []
passed_on host (upstream_sent id src dst payload true ∷ t) =
    ite (eq? id host)
      (passed_on host t ++ record { src_port = src; dst_port = dst; payload = payload } ∷ [])
      (passed_on host t)
passed_on host (upstream_sent id src dst payload false ∷ t) = passed_on host t
passed_on host (locally_sent s f accepted ∷ t) = passed_on host t

abbrev pub is_control : ℕ → ℕ → Bool
is_control src dst = src == 0 && dst == 0

-- The messages among contents: what goes from port 0 to port 0 is for the daemon.
abbrev pub messages : List Content → List Content
messages [] = []
messages (m ∷ ms) =
    let rest = messages ms in if is_control m.src_port m.dst_port then rest else m ∷ rest

abbrev pub contents : List Frame → List Content
contents [] = []
contents (ping ∷ fs) = contents fs
contents (pong ∷ fs) = contents fs
contents (data_frame s d p ∷ fs) = record { src_port = s; dst_port = d; payload = p } ∷ contents fs

-- What was put into the channels of a host's programs as coming from another host, oldest first, and the
-- same with what came for a port that no program had.
abbrev pub received : Identifier → List Label → List Content
received host [] = []
received host (reached t q id p payload ∷ log) =
    ite (eq? id host)
      (received host log ++ record { src_port = p; dst_port = q; payload = payload } ∷ [])
      (received host log)
received host (unbound q id p payload ∷ log) = received host log
received host (bound t q ∷ log) = received host log
received host (sent_label t id q d payload ∷ log) = received host log

abbrev pub offered : Identifier → List Label → List Content
offered host [] = []
offered host (reached t q id p payload ∷ log) =
    ite (eq? id host)
      (offered host log ++ record { src_port = p; dst_port = q; payload = payload } ∷ [])
      (offered host log)
offered host (unbound q id p payload ∷ log) =
    ite (eq? id host)
      (offered host log ++ record { src_port = p; dst_port = q; payload = payload } ∷ [])
      (offered host log)
offered host (bound t q ∷ log) = offered host log
offered host (sent_label t id q d payload ∷ log) = offered host log

-- What the network half sent to the local half as coming from a host, oldest first.
abbrev pub climbing : Identifier → List (Identifier × ℕ × ℕ × List ℕ) → List Content
climbing host [] = []
climbing host ((id, s, d, payload) ∷ t) =
    ite (eq? id host)
      (climbing host t ++ record { src_port = s; dst_port = d; payload = payload } ∷ [])
      (climbing host t)

-- The network half with a frame that its read task for the connection reads: the task, and the task that
-- hands what it reads to `deliver_frame`.
module _ (env : World.Env) (pack : MessagePack) (conn : Connection) (remote_id : Identifier) where
  unfoldable pub hand_on : List Delivered → World → World
  hand_on [] w = w
  hand_on (m ∷ ms) w =
      (deliver_frame env pack m.host_id m.src_port m.dst_port m.payload (hand_on ms w)).1

  unfoldable pub incoming : Frame → World → World
  unfolding hand_on
  incoming f w =
      let (stopped, out, w') = read_task env (λ _. true) conn remote_id (frame f ∷ []) [] w in
      hand_on out w'

module _ (mpsc : Mpsc Frame) where
  -- The sending daemon: its local half, what was taken from the channel to its network half, that half,
  -- and what of that went onto the connection. The connection's end there, and the bytes that the other
  -- end has read. The receiving daemon: the frames that were read, its network half, what was taken from
  -- the channel to its local half, what of that got there, and that half. `taken`, `forwarded`, `frames`,
  -- `seen` and `handed` only say how far each part has come.
  pub record System : Type 0 where
    pub near : Programs.System
    pub taken : List Content
    pub near_network : World
    pub forwarded : List Content
    pub link : Link mpsc
    pub chunks : List (List ℕ)
    pub frames : List Frame
    pub far_network : World
    pub seen : List Content
    pub handed : List Content
    pub far : Programs.System

  -- Nothing has come from the host on the other side yet.
  pub record IsStart (near_socket far_socket : List ℕ) (near_id : Identifier) (s : System)
      : Type 0 where
    pub near : s.near ≡ start near_socket
    pub taken : s.taken ≡ []
    pub forwarded : s.forwarded ≡ []
    pub link : s.link ≡ from_tls_stream mpsc
    pub chunks : s.chunks ≡ []
    pub frames : s.frames ≡ []
    pub far_network : climbing near_id (upstreams s.far_network.trace) ≡ []
    pub seen : s.seen ≡ []
    pub handed : s.handed ≡ []
    pub far : s.far ≡ start far_socket

  module _ (bytes : ByteBuf) (pack : MessagePack) (near_local far_local : State.Env)
      (near_env far_env : World.Env) (near_id far_id : Identifier)
      (near_conn far_conn : Connection) where
    pub data Step (s : System) : System → Type 0 where
      near_steps :
          (t : Programs.System) → Programs.Step near_local s.near t → Step s (record s { near = t })
      -- other handlers of the network half
      near_network_steps : (w : World) → Step s (record s { near_network = w })
      -- `send_frame` finds the connection, and its channel takes the frame
      forwards :
          (m : Content) (rest : List Content) (f : Frame) (c : mpsc.Channel)
          → passed_on far_id s.near.world.trace ≡ s.taken ++ m ∷ rest
          → find_connection s.near_network.store far_id (values s.near_network.network.sockets)
            ≡ some near_conn
          → (send_frame near_env far_id m.src_port m.dst_port m.payload s.near_network).1.trace
            ≡ frame_sent near_conn f true ∷ s.near_network.trace
          → s.link.writing ≡ true
          → mpsc.send f s.link.sink ≡ some c
          → Step s (record s {
            taken = s.taken ++ m ∷ [];
            near_network =
                (send_frame near_env far_id m.src_port m.dst_port m.payload s.near_network).1;
            forwarded = s.forwarded ++ m ∷ [];
            link = sent mpsc f c s.link;
          })
      -- the message does not get onto the connection
      loses :
          (m : Content) (rest : List Content)
          → passed_on far_id s.near.world.trace ≡ s.taken ++ m ∷ rest
          → Step s (record s {
            taken = s.taken ++ m ∷ [];
            near_network =
                (send_frame near_env far_id m.src_port m.dst_port m.payload s.near_network).1;
          })
      -- a step of the connection's tasks, or a control message
      link_steps :
          (l : Link mpsc)
          → Link.Step mpsc bytes far_id s.link l
          → messages (contents l.accepted) ≡ messages (contents s.link.accepted)
          → Step s (record s { link = l })
      -- whatever bytes come
      arrives : (chunk : List ℕ) → Step s (record s { chunks = s.chunks ++ chunk ∷ [] })
      reads :
          (f : Frame) (rest : List Frame)
          → (feed bytes [] s.chunks).0 ≡ s.frames ++ f ∷ rest
          → Step s (record s {
            frames = s.frames ++ f ∷ [];
            far_network = incoming far_env pack far_conn near_id f s.far_network;
          })
      -- other handlers of the network half, with other hosts
      far_network_steps :
          (w : World)
          → climbing near_id (upstreams w.trace) ≡ climbing near_id (upstreams s.far_network.trace)
          → Step s (record s { far_network = w })
      hands :
          (m : Content) (rest : List Content)
          → climbing near_id (upstreams s.far_network.trace) ≡ s.seen ++ m ∷ rest
          → Step s (record s {
            seen = s.seen ++ m ∷ [];
            handed = s.handed ++ m ∷ [];
            far = delivered far_local near_id m.src_port m.dst_port m.payload s.far;
          })
      -- the channel to the local half does not take the message
      drops :
          (m : Content) (rest : List Content)
          → climbing near_id (upstreams s.far_network.trace) ≡ s.seen ++ m ∷ rest
          → Step s (record s { seen = s.seen ++ m ∷ [] })
      -- what else happens in the local half there, with messages of other hosts
      far_steps :
          (t : Programs.System)
          → Programs.Step far_local s.far t
          → offered near_id t.log ≡ offered near_id s.far.log
          → Step s (record s { far = t })

    pub data Reach (s : System) : System → Type 0 where
      initial : Reach s s
      next : {t u : System} → Reach s t → Step t u → Reach s u
