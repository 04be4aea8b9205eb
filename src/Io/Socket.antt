-- ===== src/Io/Socket.antt =====
-- network/io/socket.rs: datagrams of one UDP socket are handed to a channel for each remote address.
-- A tokio channel is a number; whether a send on it succeeds is the environment's answer, which may
-- depend on all that has happened before.
pub mod Demux
pub mod Registration
pub mod Closing
use uip.Base.{
  ℕ, suc, ◌+◌, List, [], ◌∷◌, ◌++◌, Option, none, some, Result, ok, err, Bool, true, false,
  if◌then◌else◌,
}
use uip.Base.Map
use uip.Base.Map.{Map}
use uip.Data.Address.{SocketAddr, socket_addr_key}
use uip.Discovery.{LocalAddress}

abbrev pub Channel : Type 0
Channel = ℕ

pub record Socket : Type 0 where
  pub connections : Map SocketAddr Channel
  pub address : LocalAddress
  pub upd_address : SocketAddr

-- network/io/connection.rs: the receiving half of a channel and the two addresses.
pub record Connection : Type 0 where
  pub incoming : Channel
  pub local_addr : SocketAddr
  pub remote_addr : SocketAddr

-- A datagram from a remote address that was put on a channel.
pub record Queued : Type 0 where
  pub channel : Channel
  pub remote : SocketAddr
  pub bytes : List ℕ

-- The socket, the first unused channel, and what was put on channels, latest first.
pub record Driver : Type 0 where
  pub socket : Socket
  pub fresh : Channel
  pub queued : List Queued

abbrev pub Env : Type 0
Env = Channel → List Queued → Bool

-- The state that `bind` sets up on the address that the operating system gave it.
unfoldable pub bind : LocalAddress → SocketAddr → Driver
bind addr upd_address = record {
  socket = record { connections = []; address = addr; upd_address = upd_address };
  fresh = 0;
  queued = [];
}

-- `connect`, with the channel that it creates.
unfoldable pub connect_on : Channel → SocketAddr → Socket → Connection × Socket
connect_on channel addr s = (
  record { incoming = channel; local_addr = s.upd_address; remote_addr = addr },
  record s { connections = Map.insert addr channel s.connections },
)

unfoldable pub connect : SocketAddr → Driver → Connection × Driver
unfolding connect_on
connect addr d =
    let (conn, s) = connect_on d.fresh addr d.socket in
    (conn, record d { socket = s; fresh = suc d.fresh })

unfoldable pub local_addr : Socket → SocketAddr
local_addr s = s.upd_address

module _ (send_ok : Env) where
  -- The `send` on `destination` and what follows it.
  unfoldable pub forward :
      List ℕ → SocketAddr → Channel → Option Connection → Driver → Option Connection × Driver
  forward buf remote destination connection d =
      if send_ok destination d.queued
      then (
        connection,
        record d {
          socket = record d.socket {
            connections = Map.insert remote destination d.socket.connections;
          };
          queued = record { channel = destination; remote = remote; bytes = buf } ∷ d.queued;
        },
      )
      else (none, d)

  unfoldable pub forward_or_new_connection :
      List ℕ → SocketAddr → Driver → Option Connection × Driver
  unfolding forward
  forward_or_new_connection buf remote d = elim (Map.get remote d.socket.connections) [
    | some dest ↦ forward buf remote dest none d
    | none ↦
        let conn : Connection = record {
          incoming = d.fresh;
          local_addr = d.socket.upd_address;
          remote_addr = remote;
        } in
        forward buf remote d.fresh (some conn) (record d { fresh = suc d.fresh })
  ]

-- What one round of the read task waits for: a datagram, an error of the socket, or the close signal.
pub data Received : Type 0 where
  datagram : List ℕ → SocketAddr → Received
  failed closed : Received

-- `close` sends the signal: what the read task receives then, where `before` is what it takes first.
unfoldable pub close : (before : List Received) → List Received
close before = before ++ closed ∷ []

pub data Stopped : Type 0 where
  running receive_failed socket_closed consumer_gone : Stopped

-- The loop of `spawn_read_task` over what it receives. `accept` is the connection channel: `false`
-- is a failed `connection_sender.send`. The result says whether the task still runs.
module _ (send_ok : Env) (accept : Connection → List Queued → Bool) where
  unfoldable pub read_task : List Received → Driver → Stopped × List Connection × Driver
  unfolding forward_or_new_connection
  read_task [] d = (running, [], d)
  read_task (failed ∷ rest) d = (receive_failed, [], d)
  read_task (closed ∷ rest) d = (socket_closed, [], d)
  read_task (datagram bytes remote ∷ rest) d =
      let (connection, d') = forward_or_new_connection send_ok bytes remote d in
      elim connection [
        | none ↦ read_task rest d'
        | some conn ↦ elim (accept conn d'.queued) [
          | true ↦ let (stopped, conns, d'') = read_task rest d' in (stopped, conn ∷ conns, d'')
          | false ↦ (consumer_gone, [], d')
        ]
      ]
