-- ===== src/Network/Peers/Sending.antt =====
-- What sending to a peer changes, and which connection it uses.
use uip.Base.{
  ℕ, ◌≡◌, refl, List, [], ◌∷◌, none, some, ok, err, ErrorKind, arith, ap, Option-cases, inl, inr,
  ◌⊎◌, first, not_found, not_connected,
}
use uip.Base.Map.{values}
use uip.Data.Identifier.{Identifier, identifier_key}
use uip.Data.Address.{SocketAddrV6}
use uip.Data.PeerInformationBase.{lookup_peer_address}
use uip.Transport.Codec.{data_frame}
use uip.Transport.Connection.{send, send_data_frame}
use uip.Network.Pieces.Handlers.{Does-send_frame}
use uip.Network.Quiet.{Quiet-IsClosed}
use uip.Network.Peers.{
  find_connection, connect_with_address, connect, get_connection_to, on_connection, forward_on,
  send_frame,
}
use uip.World.{World, M, Env, Connection, SocketRef, Socket, frame_sent}

-- The connections that a socket has registered decide what `find_connection` finds.
pub find_connection-eq :
    (s t : SocketRef → Socket) (id : Identifier) (rs : List SocketRef)
    → ((r : SocketRef) → (t r).connections ≡ (s r).connections)
    → find_connection t id rs ≡ find_connection s id rs
unfolding find_connection
find_connection-eq s t id [] h = refl
find_connection-eq s t id (r ∷ rs) h = ground (arith, h r, find_connection-eq s t id rs h)

module _ (env : Env) where
  -- Sending a frame registers no connection: the same connection, or none, is found afterwards for
  -- every peer, also when a connection was opened for the frame.
  pub send_frame-find_connection :
      (id j : Identifier) (s d : ℕ) (payload : List ℕ) (w : World)
      → let w' = (send_frame env id s d payload w).1 in
        find_connection w'.store j (values w'.network.sockets)
        ≡ find_connection w.store j (values w.network.sockets)
  send_frame-find_connection id j s d payload w =
      let q = Does-send_frame (Quiet-IsClosed env) id s d payload w in
      rw q.network (find_connection-eq w.store _ j (values w.network.sockets) q.connections)

  get_connection_to_found :
      (id : Identifier) (w : World) (c : Connection)
      → find_connection w.store id (values w.network.sockets) ≡ some c
      → get_connection_to env id w ≡ (ok c, w)
  unfolding get_connection_to
  get_connection_to_found id w c e = rw (e, get_connection_to)

  get_connection_to_unknown :
      (id : Identifier) (w : World)
      → find_connection w.store id (values w.network.sockets) ≡ none
      → lookup_peer_address id w.network.pib ≡ none
      → get_connection_to env id w ≡ (err not_found, w)
  unfolding get_connection_to
  get_connection_to_unknown id w e p = rw (e, get_connection_to) (rw (p, connect))

  get_connection_to_closed :
      (id : Identifier) (w : World) (a : SocketAddrV6)
      → find_connection w.store id (values w.network.sockets) ≡ none
      → lookup_peer_address id w.network.pib ≡ some a
      → first (values w.network.sockets) ≡ none
      → get_connection_to env id w ≡ (err not_connected, w)
  unfolding get_connection_to
  get_connection_to_closed id w a e p q =
      rw (e, get_connection_to) (rw (p, connect) (rw (q, connect_with_address)))

  module _ (id : Identifier) (use_it : Connection → M (Unit {0})) (w w' : World) where
    on_connection_ok :
        (c : Connection)
        → get_connection_to env id w ≡ (ok c, w')
        → on_connection env id use_it w ≡ use_it c w'
    unfolding on_connection
    on_connection_ok c e = rw (ap (λ r. r.0) e, on_connection) (rw (ap (λ r. r.1) e))

    on_connection_err :
        (k : ErrorKind)
        → get_connection_to env id w ≡ (err k, w')
        → on_connection env id use_it w ≡ (tt, w')
    unfolding on_connection
    on_connection_err k e = rw (ap (λ r. r.0) e, on_connection) (rw (ap (λ r. r.1) e))

  -- For a peer with a registered connection `send_frame` puts exactly the data frame on the first
  -- such connection, and changes nothing else.
  pub send_frame_registered :
      (id : Identifier) (s d : ℕ) (payload : List ℕ) (w : World) (c : Connection)
      → find_connection w.store id (values w.network.sockets) ≡ some c
      → (send_frame env id s d payload w).1 ≡ record w {
        trace = frame_sent c (data_frame s d payload) (env.sink_open c w.trace) ∷ w.trace;
      }
  unfolding send_frame forward_on send_data_frame send
  send_frame_registered id s d payload w c e =
      ap (λ r. r.1)
        (on_connection_ok id (forward_on env s d payload) w w c (get_connection_to_found id w c e))

  -- For a peer without one the frame is dropped, and nothing changes, if its address is not known or
  -- no socket is open.
  pub send_frame_dropped :
      (id : Identifier) (s d : ℕ) (payload : List ℕ) (w : World)
      → find_connection w.store id (values w.network.sockets) ≡ none
      → (lookup_peer_address id w.network.pib ≡ none) ⊎ (first (values w.network.sockets) ≡ none)
      → (send_frame env id s d payload w).1 ≡ w
  unfolding send_frame
  send_frame_dropped id s d payload w e (inl p) =
      ap (λ r. r.1)
        (on_connection_err id (forward_on env s d payload) w w not_found
          (get_connection_to_unknown id w e p))
  send_frame_dropped id s d payload w e (inr p) =
      elim (Option-cases (lookup_peer_address id w.network.pib)) [
        | inl q ↦
            ap (λ r. r.1)
              (on_connection_err id (forward_on env s d payload) w w not_found
                (get_connection_to_unknown id w e q))
        | inr (a, q) ↦
            ap (λ r. r.1)
              (on_connection_err id (forward_on env s d payload) w w not_connected
                (get_connection_to_closed id w a e q p))
      ]
