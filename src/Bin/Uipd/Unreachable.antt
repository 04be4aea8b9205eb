-- ===== src/Bin/Uipd/Unreachable.antt =====
-- What the daemon sends to a peer whose connection has ended: src/network/state.rs keeps it registered.
use uip.Base.{ℕ, ◌≡◌, refl, sym, subst, ap, ◌∙◌, List, [], ◌∷◌, some, false}
use uip.Base.Map.{values}
use uip.Bin.Uipd.{Message, to_network}
use uip.Data.Identifier.{Identifier}
use uip.Network.Peers.{find_connection}
use uip.Network.Peers.Sending.{send_frame_registered}
use uip.Transport.Codec.{data_frame}
use uip.World.{World, Env, Trace, Connection, frame_sent}

-- The messages of the local half for one peer.
abbrev pub for_peer : Identifier → List (ℕ × ℕ × List ℕ) → List Message
for_peer id [] = []
for_peer id ((p, q, payload) ∷ rest) =
    record { host_id = id; src_port = p; dst_port = q; payload = payload } ∷ for_peer id rest

-- Each of them refused by the connection, latest first.
abbrev pub refused : Connection → List (ℕ × ℕ × List ℕ) → Trace → Trace
refused c [] t = t
refused c ((p, q, payload) ∷ rest) t =
    refused c rest (frame_sent c (data_frame p q payload) false ∷ t)

module _ (env : Env) (id : Identifier) (c : Connection) where
  -- While the connection found for a peer takes no frame, whatever the local half gives for the peer is
  -- offered to that connection and lost: no other connection is opened, though the peer's address may be
  -- known, and the same connection is found afterwards.
  pub to_network-refused :
      (ms : List (ℕ × ℕ × List ℕ)) (w : World)
      → ((t : Trace) → env.sink_open c t ≡ false)
      → find_connection w.store id (values w.network.sockets) ≡ some c
      → (to_network env (for_peer id ms) w ≡ record w { trace = refused c ms w.trace })
        × (find_connection
              (to_network env (for_peer id ms) w).store
              id
              (values (to_network env (for_peer id ms) w).network.sockets)
            ≡ some c)
  unfolding to_network
  to_network-refused [] w closed found = (refl, found)
  to_network-refused ((p, q, payload) ∷ ms) w closed found =
      let t = frame_sent c (data_frame p q payload) false ∷ w.trace in
      let one =
        send_frame_registered env id p q payload w c found
        ∙ ap (λ b. record w { trace = frame_sent c (data_frame p q payload) b ∷ w.trace })
            (closed w.trace) in
      subst
        (λ (v : World).
          (to_network env (for_peer id ms) v ≡ record w { trace = refused c ms t })
          × (find_connection (to_network env (for_peer id ms) v).store id
                (values (to_network env (for_peer id ms) v).network.sockets)
              ≡ some c))
        (sym one) (to_network-refused ms (record w { trace = t }) closed found)
