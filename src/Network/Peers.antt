-- ===== src/Network/Peers.antt =====
-- network/state.rs: connections to peers and relays, and control messages.
pub mod Announcements
pub mod Sending
pub mod Trust
pub mod Relays
use uip.Base.{
  ℕ, List, [], ◌∷◌, Option, none, some, Bool, true, false, if◌then◌else◌, Result, ok, err,
  ErrorKind, not_found, not_connected, first, ◌++◌, ◌==◌, ◌&&◌,
}
use uip.Base.Map
use uip.Base.Map.{Map, values}
use uip.Data.Address.{SocketAddrV6}
use uip.Data.Identifier.{Identifier, identifier_key, Identifier-discrete}
use uip.Data.Peer.{Peer}
use uip.Data.PeerInformationBase.{add_peer, get_peer, lookup_peer_address}
use uip.Protocol.{
  MessagePack, Message, peer_info, peer_info_request, invalid, deserialize_from_msgpck,
}
use uip.Network.Sockets.{my_peer_information}
use uip.Transport.Connection.{send_peer_info, send_peer_info_request, send_data_frame}
use uip.Transport.Socket.{get_connection, open_connection}
use uip.World.{
  NetworkState, SocketRef, Connection, Env, M, ◌>>=◌, ◌>>◌, pure, read, write, for_each, World,
  Socket, upstream_sent,
}

unfoldable pub add_relay : Identifier → M (Unit {0})
add_relay id = write (λ s. record s { relays = s.relays ++ id ∷ [] })

-- `sockets.values().filter_map(|socket| socket.get_connection(&host_id)).next()`
unfoldable pub find_connection :
    (SocketRef → Socket) → Identifier → List SocketRef → Option Connection
find_connection store host_id [] = none
find_connection store host_id (r ∷ rs) =
    let rest = find_connection store host_id rs in
    elim (Map.get host_id (store r).connections) [ some c ↦ some c | none ↦ rest ]

module _ (env : Env) where
  unfoldable pub connect_with_address : Identifier → SocketAddrV6 → M (Result Connection ErrorKind)
  connect_with_address remote_id address w = elim (first (values w.network.sockets)) [
    | none ↦ (err not_connected, w)
    | some r ↦ open_connection env r remote_id address w
  ]

  unfoldable pub connect : Identifier → M (Result Connection ErrorKind)
  unfolding connect_with_address
  connect remote_id w = elim (lookup_peer_address remote_id w.network.pib) [
    | none ↦ (err not_found, w)
    | some addr ↦ connect_with_address remote_id addr w
  ]

  unfoldable pub get_connection_to : Identifier → M (Result Connection ErrorKind)
  unfolding find_connection connect
  get_connection_to host_id w = elim (find_connection w.store host_id (values w.network.sockets)) [
    | some connection ↦ (ok connection, w)
    | none ↦ connect host_id w
  ]

  -- An error is only logged.
  unfoldable pub on_connection : Identifier → (Connection → M (Unit {0})) → M (Unit {0})
  unfolding get_connection_to
  on_connection host_id use_it w =
      let (connection, w') = get_connection_to host_id w in
      elim connection [ ok conn ↦ use_it conn w' | err _ ↦ (tt, w') ]

  -- The `Ok` branch of `send_frame`.
  unfoldable pub forward_on : ℕ → ℕ → List ℕ → Connection → M (Unit {0})
  forward_on src_port dst_port payload connection = do
    accepted ← send_data_frame env connection src_port dst_port payload
    pure tt

  unfoldable pub send_frame : Identifier → ℕ → ℕ → List ℕ → M (Unit {0})
  unfolding on_connection
  send_frame host_id src_port dst_port payload =
      on_connection host_id (forward_on src_port dst_port payload)

  module _ (pack : MessagePack) where
    -- The body of the loop of `connect_to_relays_on_socket`.
    unfoldable pub connect_to_relay : SocketRef → Identifier → M (Unit {0})
    connect_to_relay r relay w = elim (Map.get relay (w.store r).connections) [
      | some _ ↦ (tt, w)
      | none ↦ elim (lookup_peer_address relay w.network.pib) [
        | none ↦ (tt, w)
        | some addr ↦
            let (opened, w') = open_connection env r relay addr w in
            elim opened [
              | ok conn ↦ send_peer_info env pack conn (my_peer_information w'.network) w'
              | err _ ↦ (tt, w')
            ]
      ]
    ]

    unfoldable pub connect_to_relays_on_socket : SocketRef → M (Unit {0})
    unfolding connect_to_relay
    connect_to_relays_on_socket r = do s ← read; for_each (connect_to_relay r) s.relays

    unfoldable pub connect_to_relays : M (Unit {0})
    unfolding connect_to_relays_on_socket
    connect_to_relays = do s ← read; for_each connect_to_relays_on_socket (values s.sockets)

    unfoldable pub request_peer_info : Identifier → M (Unit {0})
    unfolding on_connection
    request_peer_info id w = elim (get_peer id w.network.pib) [
      | none ↦ (tt, w)
      | some p ↦ elim (first p.relays) [
        | none ↦ (tt, w)
        | some relay ↦ on_connection relay (λ conn. send_peer_info_request env pack conn id) w
      ]
    ]

    -- The match on the message in `process_control_message`.
    unfoldable pub process_message : Identifier → Message → M (Unit {0})
    unfolding on_connection
    process_message host_id (peer_info info) w = elim (Identifier-discrete host_id info.peer.id) [
      | yes _ ↦ (
        tt,
        record w {
          network = record w.network { pib = add_peer info.peer.id info.peer w.network.pib };
        },
      )
      | no _ ↦ (tt, w)
    ]
    process_message host_id (peer_info_request identifier) w =
        elim (get_peer identifier w.network.pib) [
          | none ↦ (tt, w)
          | some peer ↦ on_connection host_id (λ conn. send_peer_info env pack conn peer) w
        ]
    process_message host_id (invalid bytes) w = (tt, w)

    unfoldable pub process_control_message : Identifier → List ℕ → M (Unit {0})
    unfolding process_message
    process_control_message host_id payload =
        process_message host_id (deserialize_from_msgpck pack payload)

    unfoldable pub deliver_frame : Identifier → ℕ → ℕ → List ℕ → M (Unit {0})
    unfolding process_control_message
    deliver_frame host_id src_port dst_port payload w =
        if src_port == 0 && dst_port == 0 then process_control_message host_id payload w else (
          tt,
          record w {
            trace =
                upstream_sent host_id src_port dst_port payload (env.upstream_open w.trace)
                ∷ w.trace;
          },
        )
