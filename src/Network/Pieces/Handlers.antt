-- ===== src/Network/Pieces/Handlers.antt =====
-- The handlers of network/state.rs are composed of such pieces, but for what changes the network state.
use uip.Base.{
  ℕ, ◌≡◌, refl, List, none, some, Result, ok, err, ErrorKind, Option-cases, inl, inr, first,
}
use uip.Base.Map
use uip.Base.Map.{values}
use uip.Data.Address.{SocketAddrV6}
use uip.Data.Identifier.{Identifier, identifier_key}
use uip.Data.Peer.{Peer}
use uip.Data.PeerInformationBase.{get_peer, lookup_peer_address}
use uip.Network.Peers.{
  find_connection, connect_with_address, connect, get_connection_to, on_connection, forward_on,
  send_frame, connect_to_relay, connect_to_relays_on_socket, connect_to_relays, request_peer_info,
}
use uip.Network.Pieces.{
  Does, IsClosed, Does-for_each, Does-open_connection, Does-send_data_frame, Does-send_peer_info,
  Does-send_peer_info_request,
}
use uip.Network.Sockets.{publish_on, publish_addresses, my_peer_information}
use uip.Protocol.{MessagePack}
use uip.Transport.Connection.{send_peer_info, send_peer_info_request}
use uip.Transport.Socket.{open_connection}
use uip.World.{World, M, Env, Connection, SocketRef}

module _ {env : Env} {R : World → World → Type 0} (closed : IsClosed env R) where
  Does-connect_with_address :
      (id : Identifier) (a : SocketAddrV6) → Does R (connect_with_address env id a)
  unfolding connect_with_address
  Does-connect_with_address id a w = elim (Option-cases (first (values w.network.sockets))) [
    | inl e ↦ rw (e, connect_with_address) (closed.reflexive w)
    | inr (r, e) ↦ rw (e, connect_with_address) (Does-open_connection closed r id a w)
  ]

  Does-connect : (id : Identifier) → Does R (connect env id)
  unfolding connect
  Does-connect id w = elim (Option-cases (lookup_peer_address id w.network.pib)) [
    | inl e ↦ rw (e, connect) (closed.reflexive w)
    | inr (a, e) ↦ rw (e, connect) (Does-connect_with_address id a w)
  ]

  Does-get_connection_to : (id : Identifier) → Does R (get_connection_to env id)
  unfolding get_connection_to
  Does-get_connection_to id w =
      elim (Option-cases (find_connection w.store id (values w.network.sockets))) [
        | inl e ↦ rw (e, get_connection_to) (Does-connect id w)
        | inr (c, e) ↦ rw (e, get_connection_to) (closed.reflexive w)
      ]

  pub Does-on_connection :
      (id : Identifier) (use_it : Connection → M (Unit {0}))
      → ((c : Connection) → Does R (use_it c))
      → Does R (on_connection env id use_it)
  unfolding on_connection
  Does-on_connection id use_it q w = go (get_connection_to env id w).0 refl
    where
      go :
          (r : Result Connection ErrorKind)
          → (get_connection_to env id w).0 ≡ r
          → R w (on_connection env id use_it w).1
      go (ok c) e =
          rw (e, on_connection)
            (closed.transitive w (get_connection_to env id w).1 _ (Does-get_connection_to id w)
              (q c (get_connection_to env id w).1))
      go (err k) e = rw (e, on_connection) (Does-get_connection_to id w)

  pub Does-send_frame :
      (id : Identifier) (s d : ℕ) (payload : List ℕ) → Does R (send_frame env id s d payload)
  unfolding send_frame forward_on
  Does-send_frame id s d payload =
      Does-on_connection id (forward_on env s d payload)
        (λ conn w. Does-send_data_frame closed conn s d payload w)

  module _ (pack : MessagePack) where
    Does-publish_on : (p : Peer) (r : SocketRef) → Does R (publish_on env pack p r)
    unfolding publish_on
    Does-publish_on p r w =
        Does-for_each closed (λ c. send_peer_info env pack c p) (values (w.store r).connections)
          (λ c. Does-send_peer_info closed pack c p) w

    pub Does-publish_addresses : Does R (publish_addresses env pack)
    unfolding publish_addresses
    Does-publish_addresses w =
        Does-for_each closed (publish_on env pack (my_peer_information w.network))
          (values w.network.sockets) (Does-publish_on (my_peer_information w.network)) w

    connect_opened :
        (r : SocketRef) (relay : Identifier) (w : World) (a : SocketAddrV6)
        → Map.get relay (w.store r).connections ≡ none
        → lookup_peer_address relay w.network.pib ≡ some a
        → R w (connect_to_relay env pack r relay w).1
    unfolding connect_to_relay
    connect_opened r relay w a e p = go (open_connection env r relay a w).0 refl
      where
        go :
            (o : Result Connection ErrorKind)
            → (open_connection env r relay a w).0 ≡ o
            → R w (connect_to_relay env pack r relay w).1
        go (err k) q =
            rw (e, connect_to_relay)
              (rw (p, connect_to_relay)
                (rw (q, connect_to_relay) (Does-open_connection closed r relay a w)))
        go (ok c) q =
            rw (e, connect_to_relay)
              (rw (p, connect_to_relay)
                (rw (q, connect_to_relay)
                  (closed.transitive w (open_connection env r relay a w).1 _
                    (Does-open_connection closed r relay a w)
                    (Does-send_peer_info closed pack c _ (open_connection env r relay a w).1))))

    Does-connect_to_relay :
        (r : SocketRef) (relay : Identifier) → Does R (connect_to_relay env pack r relay)
    unfolding connect_to_relay
    Does-connect_to_relay r relay w = elim (Option-cases (Map.get relay (w.store r).connections)) [
      | inr (c, e) ↦ rw (e, connect_to_relay) (closed.reflexive w)
      | inl e ↦ elim (Option-cases (lookup_peer_address relay w.network.pib)) [
        | inl p ↦ rw (e, connect_to_relay) (rw (p, connect_to_relay) (closed.reflexive w))
        | inr (a, p) ↦ connect_opened r relay w a e p
      ]
    ]

    pub Does-connect_to_relays_on_socket :
        (r : SocketRef) → Does R (connect_to_relays_on_socket env pack r)
    unfolding connect_to_relays_on_socket
    Does-connect_to_relays_on_socket r w =
        Does-for_each closed (connect_to_relay env pack r) w.network.relays
          (Does-connect_to_relay r) w

    pub Does-connect_to_relays : Does R (connect_to_relays env pack)
    unfolding connect_to_relays
    Does-connect_to_relays w =
        Does-for_each closed (connect_to_relays_on_socket env pack) (values w.network.sockets)
          Does-connect_to_relays_on_socket w

    pub Does-request_peer_info : (id : Identifier) → Does R (request_peer_info env pack id)
    unfolding request_peer_info
    Does-request_peer_info id w = elim (Option-cases (get_peer id w.network.pib)) [
      | inl e ↦ rw (e, request_peer_info) (closed.reflexive w)
      | inr (p, e) ↦ elim (Option-cases (first p.relays)) [
        | inl q ↦ rw (e, request_peer_info) (rw (q, request_peer_info) (closed.reflexive w))
        | inr (relay, q) ↦
            rw (e, request_peer_info)
              (rw (q, request_peer_info)
                (Does-on_connection relay (λ conn. send_peer_info_request env pack conn id)
                  (λ c. Does-send_peer_info_request closed pack c id) w))
      ]
    ]
