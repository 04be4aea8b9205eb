-- ===== src/Data/Peer.antt =====
-- data/peer.rs
use uip.Base.{List}
use uip.Data.Identifier.{Identifier}
use uip.Data.Address.{SocketAddrV6}

pub record Peer : Type 0 where
  pub id : Identifier
  pub addresses : List SocketAddrV6
  pub relays : List Identifier

unfoldable pub new : Identifier → List SocketAddrV6 → List Identifier → Peer
new id addresses relays = record { id = id; addresses = addresses; relays = relays }
