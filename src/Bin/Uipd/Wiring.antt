-- ===== src/Bin/Uipd/Wiring.antt =====
-- From a program at one daemon to a program at another, and the configuration over a run.
use uip.Base.{
  ℕ, ◌≡◌, ◌≢◌, ◌<◌, refl, ap, List, [], ◌∷◌, map, some, true, false, length, arith, ◌==◌, ◌&&◌,
}
use uip.Base.Map
use uip.Bin.Uipd.{
  to_local, to_network, Configuration, with_default_port, network_state, unix_state,
  final_configuration,
}
use uip.Data.Identifier.{Identifier}
use uip.Data.Openssl.{Openssl}
use uip.Network.Peers.{deliver_frame, find_connection}
use uip.Network.Peers.Sending.{send_frame_registered}
use uip.Network.Sockets
use uip.Protocol.{MessagePack}
use uip.Transport.Codec.{ByteBuf, data_frame}
use uip.Transport.Codec.Stream.{feed, flatten}
use uip.Transport.Connection.Tasks.{frame, queued, write_task, read_task}
use uip.Transport.Connection.Tasks.Delivery.{write_task-read_task}
use uip.Unix.Codec
use uip.Unix.State
use uip.Unix.State.{port_key}
use uip.World
use uip.World.{frame_sent, upstream_sent, Connection}

-- A message from a local program, on a daemon that has the peer's connection registered, is put on
-- it as the data frame. If the frame's bytes reach the other end in any chunks, the ports are not
-- both zero and all fits in u16 fields, then that end's read task delivers exactly that message
-- under the sender's identifier, the daemon there sends it to its local half, and the local half
-- hands it to the program bound to the target port.
pub message_delivered :
    (bytes : ByteBuf) (pack : MessagePack) (env : World.Env) (uenv : State.Env)
    (sender receiver : Identifier) (p q : ℕ) (payload : List ℕ) (w v : World.World)
    (u : State.World) (c conn : Connection) (s : State.Sender) (chunks : List (List ℕ))
    → p < 65536
    → q < 65536
    → length payload < 65536
    → (p == 0 && q == 0) ≡ false
    → find_connection w.store receiver (Map.values w.network.sockets) ≡ some c
    → flatten chunks ≡ write_task bytes (map (λ f. queued f true) (data_frame p q payload ∷ [])) []
    → Map.get q u.state.connections ≡ some s
    → ((to_network env
          (record { host_id = receiver; src_port = p; dst_port = q; payload = payload } ∷ [])
          w).trace
        ≡ frame_sent c (data_frame p q payload) (env.sink_open c w.trace) ∷ w.trace)
      × ((read_task env (λ _. true) conn sender (map frame (feed bytes [] chunks).0) [] v).1
          ≡ record { host_id = sender; src_port = p; dst_port = q; payload = payload } ∷ [])
      × ((deliver_frame env pack sender p q payload v).1.trace
          ≡ upstream_sent sender p q payload (env.upstream_open v.trace) ∷ v.trace)
      × ((to_local uenv
            (record { host_id = sender; src_port = p; dst_port = q; payload = payload } ∷ [])
            u).trace
          ≡ State.locally_sent s (Codec.data_frame sender p payload) (uenv.sender_open s u.trace)
            ∷ u.trace)
unfolding to_network to_local deliver_frame State.deliver_frame
message_delivered bytes pack env uenv sender receiver p q payload w v u c conn s chunks hp hq hl
      ports found written bound =
    (
      ap (λ x. x.trace) (send_frame_registered env receiver p q payload w c found),
      write_task-read_task bytes env (λ _. true) conn sender (data_frame p q payload ∷ []) chunks v
          (λ o. refl) ((hp, hq, hl), tt) written,
      rw ports,
      rw (bound, State.deliver_frame),
    )

-- A configuration that is read, run with and written again is the one that was read, but for the port,
-- which is never zero; the peers and relays are those that the network half then has.
pub final_configuration_lem :
    (ssl : Openssl) (c : Configuration ssl) (network : World.NetworkState)
    → network.port ≡ (network_state ssl (with_default_port ssl c)).port
    → let final =
        final_configuration ssl
          (with_default_port ssl c)
          network
          (unix_state ssl (with_default_port ssl c)) in
      (final.id ≡ c.id)
      × (final.ctl_socket ≡ c.ctl_socket)
      × (final.port ≢ 0)
      × ((c.port ≢ 0) → final.port ≡ c.port)
      × (final.pib ≡ network.pib)
      × (final.relays ≡ network.relays)
unfolding final_configuration with_default_port network_state unix_state State.new Sockets.new
final_configuration_lem ssl c network e =
    (ground arith, ground arith, ground arith, ground arith, refl, refl)
