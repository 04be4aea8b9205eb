-- ===== src/Data/PeerInformationBase.antt =====
-- data/peer_information_base.rs: what is known of each peer.
pub mod Lookups
pub mod Unordered
use uip.Base.{List, [], ◌∷◌, ◌++◌, Option, none, some, first}
use uip.Base.Map
use uip.Base.Map.{Map}
use uip.Data.Identifier.{Identifier, identifier_key}
use uip.Data.Address.{SocketAddrV6}
use uip.Data.Peer.{Peer}
use uip.Data.Peer

pub record PeerInformationBase : Type 0 where
  pub peers : Map Identifier Peer

unfoldable pub new : PeerInformationBase
new = record { peers = [] }

unfoldable pub add_peer : Identifier → Peer → PeerInformationBase → PeerInformationBase
add_peer id peer pib = record { peers = Map.insert id peer pib.peers }

unfoldable pub get_peer : Identifier → PeerInformationBase → Option Peer
get_peer id pib = Map.get id pib.peers

unfoldable pub lookup_peer_address : Identifier → PeerInformationBase → Option SocketAddrV6
unfolding get_peer
lookup_peer_address id pib = elim (get_peer id pib) [
  | none ↦ none
  | some peer ↦ first peer.addresses
]

-- `entry(id).or_insert_with(..)`
unfoldable pub entry_or_new : Identifier → PeerInformationBase → Peer
unfolding Peer.new
entry_or_new id pib = elim (Map.get id pib.peers) [ none ↦ Peer.new id [] [] | some peer ↦ peer ]

unfoldable pub add_peer_address :
    Identifier → SocketAddrV6 → PeerInformationBase → PeerInformationBase
unfolding entry_or_new
add_peer_address id addr pib =
    let peer = entry_or_new id pib in
    record {
      peers = Map.insert id (record peer { addresses = peer.addresses ++ addr ∷ [] }) pib.peers;
    }
