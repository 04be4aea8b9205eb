-- ===== src/Network/Sockets/Published.antt =====
-- Whom the daemon tells its addresses, and what is known of it then.
use uip.Base.{
  ℕ, ◌≡◌, refl, sym, ap, ◌∙◌, List, [], ◌∷◌, ◌++◌, some, ok, ite, Elem, Elem-cons, not-Elem-nil,
  inl, inr, if_pos, if_neg, ◌↔◌,
}
use uip.Base.Map
use uip.Network.Sockets.Stale.{keys-Elem}
use uip.Data.Peer
use uip.Base.Map.{eq?, keys, values}
use uip.Data.Address.{SocketAddrV6, socket_addr_v6_key}
use uip.Data.Identifier.{Identifier, identifier_key}
use uip.Data.Peer.{Peer}
use uip.Data.PeerInformationBase.{get_peer}
use uip.Network.Peers.{deliver_frame}
use uip.Network.Peers.Trust.{send_peer_info-deliver_frame}
use uip.Network.Sockets.{publish_on, publish_addresses, my_peer_information, external_addresses}
use uip.Protocol.{MessagePack, plain_peer, peer_info, serialize_to_msgpck}
use uip.Transport.Codec.{Frame, data_frame}
use uip.Transport.Connection.{send, send_data_frame, send_control_message, send_peer_info}
use uip.World.{World, Env, Connection, SocketRef, Socket, Trace, frame_sent, for_each}

-- The registered connections of sockets, in order.
abbrev pub registered : (SocketRef → Socket) → List SocketRef → List Connection
registered store [] = []
registered store (r ∷ rs) = values (store r).connections ++ registered store rs

-- A frame offered to one connection after the other, latest first.
abbrev pub offered : Env → Frame → List Connection → Trace → Trace
offered env f [] t = t
offered env f (c ∷ cs) t = offered env f cs (frame_sent c f (env.sink_open c t) ∷ t)

offered-append :
    (env : Env) (f : Frame) (cs ds : List Connection) (t : Trace)
    → offered env f (cs ++ ds) t ≡ offered env f ds (offered env f cs t)
offered-append env f [] ds t = refl
offered-append env f (c ∷ cs) ds t =
    offered-append env f cs ds (frame_sent c f (env.sink_open c t) ∷ t)

module _ (env : Env) (pack : MessagePack) (p : Peer) (buf : List ℕ) where
  abbrev Serialized : Type 0
  Serialized = pack.serialize (peer_info (record { peer = p })) ≡ ok buf

  send_peer_info-offered :
      (c : Connection) (w : World)
      → Serialized
      → (send_peer_info env pack c p w).1
        ≡ record w { trace = offered env (data_frame 0 0 buf) (c ∷ []) w.trace }
  unfolding send_peer_info send_control_message send_data_frame send serialize_to_msgpck
  send_peer_info-offered c w e = rw (e, send_control_message)

  each-offered :
      (cs : List Connection) (w : World)
      → Serialized
      → (for_each (λ c. send_peer_info env pack c p) cs w).1
        ≡ record w { trace = offered env (data_frame 0 0 buf) cs w.trace }
  unfolding for_each
  each-offered [] w e = refl
  each-offered (c ∷ cs) w e =
      ap (λ v. (for_each (λ c. send_peer_info env pack c p) cs v).1) (send_peer_info-offered c w e)
      ∙ each-offered cs _ e

  all-offered :
      (rs : List SocketRef) (w : World)
      → Serialized
      → (for_each (publish_on env pack p) rs w).1
        ≡ record w { trace = offered env (data_frame 0 0 buf) (registered w.store rs) w.trace }
  unfolding for_each publish_on
  all-offered [] w e = refl
  all-offered (r ∷ rs) w e =
      ap (λ v. (for_each (publish_on env pack p) rs v).1)
        (each-offered (values (w.store r).connections) w e)
      ∙ all-offered rs _ e
      ∙ ap (λ t. record w { trace = t })
          (sym (
            offered-append env (data_frame 0 0 buf) (values (w.store r).connections)
              (registered w.store rs) w.trace))

keys-get :
    (a : SocketAddrV6) (m : Map.Map SocketAddrV6 SocketRef)
    → Elem a (keys m)
    → (r : SocketRef) × (Map.get a m ≡ some r)
unfolding Map.get
keys-get a [] e = absurd (not-Elem-nil e)
keys-get a ((b, q) ∷ m) e = elim (eq? b a) [
  | yes p ↦ (q, if_pos (eq? b a) p (some q) (Map.get a m))
  | no n ↦ elim (Elem-cons e) [
    | inl p ↦ absurd (n (sym p))
    | inr f ↦ let (r, g) = keys-get a m f in (r, if_neg (eq? b a) n (some q) (Map.get a m) ∙ g)
  ]
]

module _ (env : Env) (pack : MessagePack) where
  -- When addresses are published and the peer information can be serialised, each registered connection of
  -- each open socket is offered it as one control message, and nothing else changes. A daemon that receives
  -- that message from the sender then knows of it its relays and, by ip and port, the addresses that were
  -- published, which are exactly those at which it has a socket; and as much as before of every other peer.
  pub publish_addresses-known :
      (w v : World) (buf : List ℕ) (j : Identifier) (a : SocketAddrV6)
      → pack.serialize (peer_info (record { peer = my_peer_information w.network })) ≡ ok buf
      → ((publish_addresses env pack w).1 ≡ record w {
        trace =
            offered env
              (data_frame 0 0 buf)
              (registered w.store (values w.network.sockets))
              w.trace;
      })
        × (get_peer j (deliver_frame env pack w.network.identifier 0 0 buf v).1.network.pib
            ≡ ite
                (eq? w.network.identifier j)
                (some (plain_peer (my_peer_information w.network)))
                (get_peer j v.network.pib))
        × ((my_peer_information w.network).relays ≡ w.network.relays)
        × (Elem a (my_peer_information w.network).addresses
            ↔ ((r : SocketRef) × (Map.get a w.network.sockets ≡ some r)))
  unfolding publish_addresses my_peer_information external_addresses Peer.new
  publish_addresses-known w v buf j a e = (
    all-offered env pack (my_peer_information w.network) buf (values w.network.sockets) w e,
    (send_peer_info-deliver_frame env pack (record { sink = 0 }) (my_peer_information w.network) buf
        j w v e).1,
    refl,
    (keys-get a w.network.sockets, λ (r, g). keys-Elem a w.network.sockets r g),
  )
