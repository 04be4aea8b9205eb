-- ===== src/Data/PeerInformationBase/Lookups.antt =====
-- What the peer information base answers after a change.
use uip.Base.{◌≡◌, refl, ◌++◌, List, [], ◌∷◌, none, some, first, ite, arith}
use uip.Base.Map.{eq?, get-insert}
use uip.Data.Identifier.{Identifier, identifier_key}
use uip.Data.Address.{SocketAddrV6}
use uip.Data.Peer.{Peer}
use uip.Data.PeerInformationBase.{
  PeerInformationBase, add_peer, get_peer, lookup_peer_address, entry_or_new, add_peer_address,
}

-- `get_peer` after `add_peer` answers the added peer for its identifier, and as before for others.
pub get_peer-add_peer :
    (id j : Identifier) (peer : Peer) (pib : PeerInformationBase)
    → get_peer j (add_peer id peer pib) ≡ ite (eq? id j) (some peer) (get_peer j pib)
unfolding get_peer add_peer
get_peer-add_peer id j peer pib = get-insert id j peer pib.peers

first-append :
    (xs : List SocketAddrV6) (a : SocketAddrV6)
    → first (xs ++ a ∷ []) ≡ elim (first xs) [ none ↦ some a | some x ↦ some x ]
first-append [] a = refl
first-append (x ∷ xs) a = refl

-- The first address of a known peer is kept by `add_peer_address`; a peer that was unknown, or known
-- without an address, is then found at the new address; other peers are found as before.
pub lookup_peer_address-add_peer_address :
    (id j : Identifier) (addr : SocketAddrV6) (pib : PeerInformationBase)
    → lookup_peer_address j (add_peer_address id addr pib)
      ≡ ite
          (eq? id j)
          (elim (lookup_peer_address id pib) [ none ↦ some addr | some old ↦ some old ])
          (lookup_peer_address j pib)
unfolding lookup_peer_address add_peer_address
lookup_peer_address-add_peer_address id j addr pib = ground (
  arith,
  get-insert id j (extended (entry_or_new id pib)) pib.peers,
  first-append (entry_or_new id pib).addresses addr,
)
  where
    extended : Peer → Peer
    extended p = record p { addresses = p.addresses ++ addr ∷ [] }
