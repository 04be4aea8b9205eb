-- ===== src/Data/PeerInformationBase/Unordered.antt =====
-- The peer information base without the order of its hash map: what can be looked up.
use uip.Base.{◌≡◌, ap, Option}
use uip.Data.Identifier.{Identifier, identifier_key}
use uip.Data.Peer.{Peer}
use uip.Data.PeerInformationBase.{PeerInformationBase, get_peer}
use mathlib.Core.Quot
use mathlib.Core.Quot.{Quot, Quot-set}

abbrev pub SamePeers : PeerInformationBase → PeerInformationBase → Type 0
SamePeers a b = (id : Identifier) → get_peer id a ≡ get_peer id b

abbrev pub Unordered : Type 0
Unordered = Quot SamePeers

abbrev pub unordered : PeerInformationBase → Unordered
unordered = Quot.mk

Peer-set : IsSet Peer
Peer-set = hlevel

-- What is known of a peer does not depend on the order.
known : Identifier → Unordered → Option Peer
known id = Quot.lift (hlevel Peer-set) (get_peer id) (λ a b h. h id)

pub known_of : (a b : PeerInformationBase) → unordered a ≡ unordered b → SamePeers a b
unfolding known
known_of a b e id = ap (known id) e
