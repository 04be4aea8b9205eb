-- ===== src/World.antt =====
-- The mutable state of the daemon's network half, and the actions on it: network/state.rs and
-- network/transport/socket.rs share transport sockets through `Shared<Socket>`, so these stand in a
-- store and are named by references. What the program does to the outside is recorded as events, and
-- what the outside answers is a function of the events so far.
use uip.Base.{ℕ, List, [], ◌∷◌, Option, Bool, ErrorKind, Result, ℕ_discrete, ite}
use uip.Base.Map.{Map}
use uip.Data.Identifier.{Identifier}
use uip.Data.Address.{SocketAddrV6, SocketAddr}
use uip.Data.PeerInformationBase.{PeerInformationBase}
use uip.Discovery.{LocalAddress}
use uip.Io.Socket.{Socket as IoSocket}
use uip.Transport.Codec.{Frame}

abbrev pub SocketRef : Type 0
SocketRef = ℕ

-- `transport::Connection`: the sending half of the channel of its write task.
pub record Connection : Type 0 where
  pub sink : ℕ

pub Connection-discrete : Discrete Connection
Connection-discrete = hlevel ℕ_discrete

-- `transport::Socket`. Its key and certificate, and the channel `deliver_frame`, never change.
pub record Socket : Type 0 where
  pub address : LocalAddress
  pub io_socket : IoSocket
  pub connections : Map Identifier Connection
  pub closed : Bool

-- What happened, as far as the network half shows it.
pub data Event : Type 0 where
  -- a send on a connection's channel, and whether it was accepted
  frame_sent : Connection → Frame → Bool → Event
  -- a send to the local half, and whether it was accepted
  upstream_sent : Identifier → ℕ → ℕ → List ℕ → Bool → Event
  -- a TLS stream to a remote address was handed its tasks, as that of a peer
  tasks_spawned : Connection → Identifier → Event
  -- the tasks of a newly opened socket
  socket_spawned : SocketRef → Event
  -- the close signal of an IO socket
  io_closed : SocketRef → Event

abbrev pub Trace : Type 0
Trace = List Event

-- The answers of the operating system, of tokio and of openssl. The trace is latest first.
pub record Env : Type 0 where
  -- whether the channel of a connection takes a frame
  pub sink_open : Connection → Trace → Bool
  -- whether the channel to the local half takes a message
  pub upstream_open : Trace → Bool
  -- `UdpSocket::bind` and `local_addr`
  pub udp_bind : LocalAddress → Trace → Result SocketAddr ErrorKind
  -- `acceptor_for_id`: whether the acceptor is built
  pub acceptor : Trace → Bool
  -- `connector_for_id(..).configure()`: whether the connector is built
  pub configure : Trace → Bool
  -- `into_ssl` and `SslStream::new`
  pub into_ssl : Identifier → Trace → Option ErrorKind
  pub ssl_stream : Trace → Option ErrorKind
  -- the handshake of `connect`: the identifier in the certificate of the peer that answers, or failure
  pub handshake : SocketAddr → Trace → Option Identifier

pub record NetworkState : Type 0 where
  pub identifier : Identifier
  pub pib : PeerInformationBase
  pub relays : List Identifier
  pub port : ℕ
  pub sockets : Map SocketAddrV6 SocketRef

pub record World : Type 0 where
  pub network : NetworkState
  pub store : SocketRef → Socket
  -- the first unused reference, and the first unused channel
  pub next_socket : SocketRef
  pub next_channel : ℕ
  pub trace : Trace

-- An action reads and writes the world.
abbrev pub M {ℓ} : Type ℓ → Type ℓ
M A = World → A × World

infixl 5 ◌>>=◌ ◌>>◌
abbrev pub ◌>>=◌ {ℓ κ} : {A : Type ℓ} {B : Type κ} → M A → (A → M B) → World → B × World
◌>>=◌ m f w = let (a, w') = m w in f a w'

abbrev pub ◌>>◌ {κ} : {B : Type κ} → M (Unit {0}) → M B → World → B × World
m >> k = m >>= λ _. k

abbrev pub pure {ℓ} : {A : Type ℓ} → A → World → A × World
pure a w = (a, w)

abbrev pub emit : Event → M (Unit {0})
emit e w = (tt, record w { trace = e ∷ w.trace })

-- `self.read()` and `self.write()` on the network state.
abbrev pub read : M NetworkState
read w = (w.network, w)

abbrev pub write : (NetworkState → NetworkState) → M (Unit {0})
write f w = (tt, record w { network = f w.network })

-- `self.read()` and `self.write()` on a transport socket.
abbrev pub read_socket : SocketRef → M Socket
read_socket r w = (w.store r, w)

abbrev pub update : (SocketRef → Socket) → SocketRef → Socket → SocketRef → Socket
update store r s q = ite (ℕ_discrete q r) s (store q)

abbrev pub write_socket : SocketRef → (Socket → Socket) → M (Unit {0})
write_socket r f w = (tt, record w { store = update w.store r (f (w.store r)) })

-- `for x in xs`
unfoldable pub for_each {ℓ} : {A : Type ℓ} → (A → M (Unit {0})) → List A → M (Unit {0})
for_each body [] w = (tt, w)
for_each body (x ∷ xs) w = for_each body xs (body x w).1

-- A property that each round keeps holds after the loop.
pub for_each_keeps {ℓ κ} :
    {A : Type ℓ} (P : World → Type κ) (body : A → M (Unit {0})) (xs : List A)
    → ((x : A) (w : World) → P w → P (body x w).1)
    → (w : World) → P w
    → P (for_each body xs w).1
unfolding for_each
for_each_keeps P body [] keep w h = h
for_each_keeps P body (x ∷ xs) keep w h = for_each_keeps P body xs keep (body x w).1 (keep x w h)
