-- ===== src/Transport/Socket.antt =====
-- network/transport/socket.rs: a transport socket and its authenticated connections. The key and the
-- certificate only go to openssl, whose answers `Env` gives.
pub mod Registry
use uip.Base.{
  ℕ, suc, List, [], ◌∷◌, Option, none, some, Bool, true, false, Result, ok, err, ErrorKind, other,
  invalid_input, connection_aborted, if◌then◌else◌,
}
use uip.Base.Map
use uip.Data.Identifier.{Identifier, identifier_key}
use uip.Data.Address.{SocketAddrV6, SocketAddr, v6}
use uip.Discovery.{LocalAddress}
use uip.Io.Socket.{connect_on}
use uip.World.{
  Socket, SocketRef, Connection, Env, M, ◌>>=◌, ◌>>◌, pure, emit, World, tasks_spawned, io_closed,
  read_socket, write_socket, update,
}

unfoldable pub new : LocalAddress → SocketAddr → Socket
new address upd_address = record {
  address = address;
  io_socket = record { connections = []; address = address; upd_address = upd_address };
  connections = [];
  closed = false;
}

-- `Connection::from_tls_stream`: a channel for the write task, and the three tasks.
unfoldable pub from_tls_stream : Identifier → M Connection
from_tls_stream remote_id w =
    let conn : Connection = record { sink = w.next_channel } in
    (
      conn,
      record w {
        next_channel = suc w.next_channel;
        trace = tasks_spawned conn remote_id ∷ w.trace;
      },
    )

unfoldable pub close : SocketRef → M (Unit {0})
close r = do emit (io_closed r); write_socket r (λ s. record s { connections = []; closed = true })

unfoldable pub get_connection : SocketRef → Identifier → M (Option Connection)
get_connection r identifier = do s ← read_socket r; pure (Map.get identifier s.connections)

unfoldable pub local_address : SocketRef → M SocketAddrV6
local_address r = do s ← read_socket r; pure s.address.address

-- `id_from_connection` and what follows it in the loop of `spawn_accept_connections_task`: `session`
-- says whether the TLS session was set up, `certificate` is the identifier of the peer's certificate,
-- if it gave one from which an identifier can be computed.
unfoldable pub accept_connection : SocketRef → Bool → Option Identifier → M (Unit {0})
unfolding from_tls_stream
accept_connection r false certificate = pure tt
accept_connection r true none = pure tt
accept_connection r true (some id) = do
  conn ← from_tls_stream id
  write_socket r (λ s. record s { connections = Map.insert id conn s.connections })

-- `self.io_socket.connect(address.into())`, which cannot fail
unfoldable pub io_connect : SocketRef → SocketAddr → M (Unit {0})
io_connect r address w =
    let s = w.store r in
    let (_, io) = connect_on w.next_channel address s.io_socket in
    (
      tt,
      record w {
        store = update w.store r (record s { io_socket = io });
        next_channel = suc w.next_channel;
      },
    )

module _ (env : Env) where
  -- The TLS stream over the IO connection, and its handshake.
  unfoldable pub handshake : Identifier → SocketAddrV6 → M (Result Connection ErrorKind)
  unfolding from_tls_stream
  handshake identifier address w = elim (env.ssl_stream w.trace) [
    | some e ↦ (err e, w)
    | none ↦ elim (env.handshake (v6 address) w.trace) [
      | none ↦ (err connection_aborted, w)
      | some certificate ↦ let (conn, w') = from_tls_stream identifier w in (ok conn, w')
    ]
  ]

  unfoldable pub open_connection :
      SocketRef → Identifier → SocketAddrV6 → M (Result Connection ErrorKind)
  unfolding handshake io_connect
  open_connection r identifier address w =
      if env.configure w.trace
      then elim (env.into_ssl identifier w.trace) [
        | some e ↦ (err e, w)
        | none ↦ handshake identifier address (io_connect r (v6 address) w).1
      ]
      else (err other, w)

  -- `Shared::<Socket>::open`, up to the insertion by the caller: a new reference to the socket.
  unfoldable pub open_on : LocalAddress → M (Result SocketRef ErrorKind)
  unfolding new
  open_on address w = elim (env.udp_bind address w.trace) [
    | err e ↦ (err e, w)
    | ok upd_address ↦
        if env.acceptor w.trace
        then (
          ok w.next_socket,
          record w {
            store = update w.store w.next_socket (new address upd_address);
            next_socket = suc w.next_socket;
          },
        )
        else (err invalid_input, w)
  ]
