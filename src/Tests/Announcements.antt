-- ===== src/Tests/Announcements.antt =====
-- Peers that announce themselves, and a map that gives its entries in another order.
use uip.Base.{
  ℕ, ◌≡◌, ◌≢◌, refl, sym, ap, ◌∙◌, List, [], ◌∷◌, Elem, Elem-cons, not-Elem-nil, inl, inr, arith,
  ◌⊎◌, ite, ok, some, ◌↔◌,
}
use uip.Data.Identifier.{Identifier, identifier_key}
use uip.Data.PeerInformationBase.Unordered.{unordered}
use uip.Network.Peers.Announcements.{Received, IsConsistent, process_all, process_all-Perm}
use uip.Base.Map
use uip.Base.Map.{eq?, values}
use uip.Data.Address.{socket_addr_v6_key}
use uip.Data.Peer
use uip.Data.PeerInformationBase.{get_peer}
use uip.Network.Peers.{deliver_frame}
use uip.Network.Sockets.{publish_addresses, my_peer_information, external_addresses}
use uip.Network.Sockets.Published.{registered, offered, publish_addresses-known}
use uip.Protocol.{plain_peer, peer_info}
use uip.Transport.Codec.{data_frame}
use uip.World.{World, SocketRef}
use uip.Tests.Fixtures.{pack, env, alice, bob, address, connected, started}
use mathlib.Core.List.Permᴰ

only_two : (m x y : Received) → Elem m (x ∷ y ∷ []) → (m ≡ x) ⊎ (m ≡ y)
only_two m x y e = elim (Elem-cons e) [
  | inl p ↦ inl p
  | inr f ↦ elim (Elem-cons f) [ inl p ↦ inr p | inr g ↦ absurd (not-Elem-nil g) ]
]

two-IsConsistent :
    (h g : Identifier) (a b : List ℕ) → h ≢ g → IsConsistent env pack ((h, a) ∷ (g, b) ∷ [])
unfolding IsConsistent
two-IsConsistent h g a b n = λ host c d p q i j u v. elim (only_two (host, c) (h, a) (g, b) i) [
  | inl r ↦ elim (only_two (host, d) (h, a) (g, b) j) [
    | inl s ↦ cc
    | inr s ↦ absurd (n (sym (ap (λ m. m.0) r) ∙ ap (λ m. m.0) s))
  ]
  | inr r ↦ elim (only_two (host, d) (h, a) (g, b) j) [
    | inl s ↦ absurd (n (sym (ap (λ m. m.0) s) ∙ ap (λ m. m.0) r))
    | inr s ↦ cc
  ]
]

abbrev of_bob : Received
of_bob = (bob, 0 ∷ bob.bytes)

abbrev of_alice : Received
of_alice = (alice, 0 ∷ alice.bytes)

differ : bob ≢ alice
differ e = absurd (omega (arith, ap (λ (i : Identifier). first_byte i.bytes) e))
  where
    first_byte : List ℕ → ℕ
    first_byte [] = 0
    first_byte (b ∷ bs) = b

process_all-Perm_example :
    unordered (process_all env pack (of_bob ∷ of_alice ∷ []) connected).network.pib
    ≡ unordered (process_all env pack (of_alice ∷ of_bob ∷ []) connected).network.pib
process_all-Perm_example =
    process_all-Perm env pack (of_bob ∷ of_alice ∷ []) (of_alice ∷ of_bob ∷ []) connected connected
      (Permᴰ.swap refl refl) (two-IsConsistent bob alice (0 ∷ bob.bytes) (0 ∷ alice.bytes) differ)
      refl

-- A daemon with a socket, a connection and no relay.
abbrev without_relay : World
without_relay = record connected { network = record connected.network { relays = [] } }

serialized :
    pack.serialize (peer_info (record { peer = my_peer_information without_relay.network }))
    ≡ ok (3 ∷ 42 ∷ 7 ∷ alice.bytes)
unfolding my_peer_information external_addresses Peer.new
serialized = refl

publish_addresses-known_example :
    ((publish_addresses env pack without_relay).1 ≡ record without_relay {
      trace =
          offered env
            (data_frame 0 0 (3 ∷ 42 ∷ 7 ∷ alice.bytes))
            (registered without_relay.store (values without_relay.network.sockets))
            [];
    })
    × (get_peer alice
          (deliver_frame env pack alice 0 0 (3 ∷ 42 ∷ 7 ∷ alice.bytes) started).1.network.pib
        ≡ ite
            (eq? alice alice)
            (some (plain_peer (my_peer_information without_relay.network)))
            (get_peer alice started.network.pib))
    × ((my_peer_information without_relay.network).relays ≡ [])
    × (Elem address (my_peer_information without_relay.network).addresses
        ↔ ((r : SocketRef) × (Map.get address without_relay.network.sockets ≡ some r)))
publish_addresses-known_example =
    publish_addresses-known env pack without_relay started (3 ∷ 42 ∷ 7 ∷ alice.bytes) alice address
      serialized
