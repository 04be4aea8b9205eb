-- ===== src/Network/Interleaved.antt =====
-- network/state.rs with its handlers interleaved at their await points. A step is what a handler or a
-- spawned task does between two of them; only `run` opens and closes sockets, one change at a time.
pub mod Kept
pub mod Current
use uip.Base.{ℕ, ◌≡◌, List, [], ◌∷◌, map, Option, Bool, false, ◌==◌, ◌&&◌}
use uip.Base.Map
use uip.Base.Map.{Map}
use uip.Data.Address.{SocketAddr, SocketAddrV6, socket_addr_v6_key}
use uip.Data.Identifier.{Identifier, identifier_key}
use uip.Data.PeerInformationBase.{PeerInformationBase, get_peer}
use uip.Discovery.{LocalAddress}
use uip.Network.Peers.{add_relay, process_message, deliver_frame}
use uip.Network.Sockets.{close_stale_sockets, new_addresses, open_or_warn, with_port}
use uip.Protocol.{MessagePack, PeerInfo, peer_info}
use uip.Transport.Codec.{Frame}
use uip.Transport.Connection.{send}
use uip.Transport.Socket.{accept_connection, from_tls_stream, io_connect}
use uip.World.{World, Env, M, Connection, SocketRef}

-- The state, two variables of `open_new_sockets`: `addresses`, and what is left of `new_addresses`, and
-- what discovery found last.
pub record System : Type 0 where
  pub world : World
  pub addresses : List LocalAddress
  pub pending : List LocalAddress
  pub discovered : List LocalAddress

-- From discovery to the first socket that is opened, which awaits nothing.
unfoldable pub found : List LocalAddress → System → System
found discovered s =
    let addresses = map (with_port s.world.network.port) discovered in
    let w = (close_stale_sockets addresses s.world).1 in
    record {
      world = w;
      addresses = addresses;
      pending = new_addresses w.network.sockets addresses;
      discovered = s.discovered;
    }

abbrev pub acted {ℓ} : {A : Type ℓ} → M A → System → System
acted m s = record s { world = (m s.world).1 }

-- The hash maps give their entries in another order.
abbrev pub reordered :
    PeerInformationBase
    → Map SocketAddrV6 SocketRef
    → (SocketRef → Map Identifier Connection)
    → System
    → System
reordered pib sockets connections s = record s {
  world = record s.world {
    network = record s.world.network { pib = pib; sockets = sockets };
    store = λ r. record (s.world.store r) { connections = connections r };
  };
}

module _ (env : Env) where
  unfoldable pub opened : LocalAddress → List LocalAddress → System → System
  opened l rest s = record {
    world = (open_or_warn env l s.world).1;
    addresses = s.addresses;
    pending = rest;
    discovered = s.discovered;
  }

  module _ (pack : MessagePack) where
    pub data Step (s : System) : System → Type 0 where
      finds :
          (discovered : List LocalAddress)
          → s.pending ≡ []
          → Step s (record (found discovered s) { discovered = discovered })
      opens :
          (l : LocalAddress) (rest : List LocalAddress)
          → s.pending ≡ l ∷ rest
          → Step s (opened l rest s)
      -- a frame of whichever handler, on a connection that it got before
      sends : (conn : Connection) (f : Frame) → Step s (acted (send env conn f) s)
      -- the two ends of opening a connection: before and after the handshake
      dials : (r : SocketRef) (address : SocketAddr) → Step s (acted (io_connect r address) s)
      shakes : (id : Identifier) → Step s (acted (from_tls_stream id) s)
      accepts :
          (r : SocketRef) (session : Bool) (certificate : Option Identifier)
          → Step s (acted (accept_connection r session certificate) s)
      learns :
          (host_id : Identifier) (info : PeerInfo)
          → Step s (acted (process_message env pack host_id (peer_info info)) s)
      hands_on :
          (host_id : Identifier) (src_port dst_port : ℕ) (payload : List ℕ)
          → (src_port == 0 && dst_port == 0) ≡ false
          → Step s (acted (deliver_frame env pack host_id src_port dst_port payload) s)
      adds_relay : (id : Identifier) → Step s (acted (add_relay id) s)
      -- maps with the same entries, in any order
      reorders :
          (pib : PeerInformationBase) (sockets : Map SocketAddrV6 SocketRef)
          (connections : SocketRef → Map Identifier Connection)
          → ((id : Identifier) → get_peer id pib ≡ get_peer id s.world.network.pib)
          → ((a : SocketAddrV6) → Map.get a sockets ≡ Map.get a s.world.network.sockets)
          → ((r : SocketRef) (id : Identifier)
              → Map.get id (connections r) ≡ Map.get id (s.world.store r).connections)
          → Step s (reordered pib sockets connections s)

    pub data Reach (s : System) : System → Type 0 where
      initial : Reach s s
      next : {t u : System} → Reach s t → Step t u → Reach s u
