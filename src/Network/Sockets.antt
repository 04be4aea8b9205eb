-- ===== src/Network/Sockets.antt =====
-- network/state.rs: the sockets, one for each address of the host. A handler runs without others in
-- between; what it spawns is recorded as an event and runs as a handler of its own.
pub mod Stale
pub mod Opening
pub mod Opened
pub mod Changed
pub mod Published
use uip.Base.{
  ℕ, List, [], ◌∷◌, ◌++◌, map, Option, none, some, Bool, true, false, not, ◌||◌, if◌then◌else◌,
  Result, ok, err, ErrorKind,
}
use uip.Base.Map
use uip.Base.Map.{Map, keys, values, eq?}
use uip.Data.Address.{SocketAddrV6, socket_addr_v6_key, SocketAddrV6-discrete, set_port}
use uip.Data.Identifier.{Identifier, identifier_key}
use uip.Data.Peer
use uip.Data.Peer.{Peer}
use uip.Data.PeerInformationBase.{PeerInformationBase}
use uip.Discovery.{LocalAddress, AddressDiscoveryError}
use uip.Protocol.{MessagePack}
use uip.Transport.Connection.{send_peer_info}
use uip.Transport.Socket.{close, open_on}
use uip.World.{
  NetworkState, SocketRef, Socket, Connection, Env, M, ◌>>=◌, ◌>>◌, pure, emit, read, write,
  read_socket, for_each, World, socket_spawned,
}

unfoldable pub new : Identifier → PeerInformationBase → List Identifier → ℕ → NetworkState
new identifier pib relays port = record {
  identifier = identifier;
  pib = pib;
  relays = relays;
  port = port;
  sockets = [];
}

-- `current_addresses.iter().map(|addr| addr.address).any(|addr| &addr == address)`
unfoldable pub is_current : List LocalAddress → SocketAddrV6 → Bool
is_current [] address = false
is_current (l ∷ ls) address = elim (SocketAddrV6-discrete l.address address) [
  | yes _ ↦ true
  | no _ ↦ is_current ls address
]

unfoldable pub stale_addresses : List LocalAddress → List SocketAddrV6 → List SocketAddrV6
stale_addresses current [] = []
stale_addresses current (a ∷ more) =
    let rest = stale_addresses current more in if is_current current a then rest else a ∷ rest

-- The body of the loop of `close_stale_sockets`.
unfoldable pub close_socket_at : SocketAddrV6 → M (Unit {0})
close_socket_at address w = elim (Map.get address w.network.sockets) [
  | none ↦ (tt, w)
  | some r ↦
      close r
        (record w { network = record w.network { sockets = Map.remove address w.network.sockets } })
]

unfoldable pub close_stale_sockets : List LocalAddress → M (Unit {0})
close_stale_sockets current_addresses = do
  s ← read
  for_each close_socket_at (stale_addresses current_addresses (keys s.sockets))

unfoldable pub external_addresses : NetworkState → List SocketAddrV6
external_addresses s = keys s.sockets

unfoldable pub my_peer_information : NetworkState → Peer
unfolding external_addresses Peer.new
my_peer_information s = Peer.new s.identifier (external_addresses s) s.relays

-- `addresses.iter_mut().for_each(|address| address.address.set_port(port))`
unfoldable pub with_port : ℕ → LocalAddress → LocalAddress
with_port port l = record l { address = set_port port l.address }

-- `!self.read().sockets.contains_key(&address.address)` on each address
unfoldable pub new_addresses : Map SocketAddrV6 SocketRef → List LocalAddress → List LocalAddress
new_addresses sockets [] = []
new_addresses sockets (l ∷ ls) =
    let rest = new_addresses sockets ls in
    elim (Map.get l.address sockets) [ some _ ↦ rest | none ↦ l ∷ rest ]

module _ (env : Env) where
  module _ (pack : MessagePack) where
    unfoldable pub publish_on : Peer → SocketRef → M (Unit {0})
    publish_on peer_information r = do
      socket ← read_socket r
      for_each (λ c. send_peer_info env pack c peer_information) (values socket.connections)

    unfoldable pub publish_addresses : M (Unit {0})
    unfolding publish_on
    publish_addresses = do
      s ← read
      for_each (publish_on (my_peer_information s)) (values s.sockets)

  -- The two tasks that are spawned at the end are the event `socket_spawned`.
  unfoldable pub open_socket : LocalAddress → M (Result (Unit {0}) ErrorKind)
  open_socket address w =
      let (opened, w') = open_on env address w in
      elim opened [
        | err e ↦ (err e, w')
        | ok r ↦ (
          ok tt,
          record w' {
            network = record w'.network {
              sockets = Map.insert address.address r w'.network.sockets;
            };
            trace = socket_spawned r ∷ w'.trace;
          },
        )
      ]

  -- An error is only logged.
  unfoldable pub open_or_warn : LocalAddress → M (Unit {0})
  open_or_warn address w = (tt, (open_socket address w).1)

  module _ (pack : MessagePack) where
    -- `discovered` is the result of `discover_addresses()`.
    unfoldable pub open_new_sockets :
        Result (List LocalAddress) AddressDiscoveryError → M (Unit {0})
    unfolding open_or_warn
    open_new_sockets (err e) w = (tt, w)
    open_new_sockets (ok discovered) w =
        let addresses = map (with_port w.network.port) discovered in
        let (_, w₁) = close_stale_sockets addresses w in
        let (_, w₂) = for_each open_or_warn (new_addresses w₁.network.sockets addresses) w₁ in
        publish_addresses pack w₂

    -- The loop of `observe_network_changes`: one element for each change, with what discovery finds.
    unfoldable pub observe_network_changes :
        List (Result (List LocalAddress) AddressDiscoveryError) → M (Unit {0})
    unfolding open_new_sockets
    observe_network_changes changes = for_each open_new_sockets changes

    -- `listening` is whether `listen` succeeded.
    unfoldable pub run :
        Result (List LocalAddress) AddressDiscoveryError
        → Bool
        → List (Result (List LocalAddress) AddressDiscoveryError)
        → M (Unit {0})
    unfolding observe_network_changes
    run first listening changes = do
      open_new_sockets first
      if listening then observe_network_changes changes else pure tt
