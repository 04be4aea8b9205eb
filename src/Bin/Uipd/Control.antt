-- ===== src/Bin/Uipd/Control.antt =====
-- A program that binds port zero (src/unix/state.rs) and the control messages of src/network/state.rs.
use uip.Base.{ℕ, ◌≡◌, refl, ap, ◌∙◌, ◌<◌, List, [], ◌∷◌, map, some, ok, ite, true, length, arith}
use uip.Base.Map
use uip.Base.Map.{eq?}
use uip.Bin.Uipd.{to_network}
use uip.Data.Identifier.{Identifier, identifier_key}
use uip.Data.Peer.{Peer}
use uip.Data.PeerInformationBase.{get_peer}
use uip.Network.Peers.{deliver_frame, find_connection}
use uip.Network.Peers.Sending.{send_frame_registered}
use uip.Network.Peers.Trust.{announced, process_control_message-get_peer}
use uip.Protocol.{MessagePack, peer_info, deserialize_from_msgpck}
use uip.Transport.Codec.{ByteBuf, data_frame}
use uip.Transport.Codec.Stream.{feed, flatten}
use uip.Transport.Connection.Tasks.{frame, queued, write_task, read_task}
use uip.Transport.Connection.Tasks.Delivery.{write_task-read_task}
use uip.Unix.Codec as Codec
use uip.Unix.State
use uip.World
use uip.World.{frame_sent, Connection}

announced_own :
    (pack : MessagePack) (p : Peer) (payload : List ℕ)
    → deserialize_from_msgpck pack payload ≡ peer_info (record { peer = p })
    → announced p.id (deserialize_from_msgpck pack payload) ≡ some p
announced_own pack p payload e = ap (announced p.id) e ∙ ground arith

-- A local program that binds port zero and sends to port zero is not refused: what it sends is put on the
-- registered connection as a frame between the ports zero, and the daemon at the other end, where the bytes
-- arrive in any chunks, reads it as a control message of the sending daemon. So a payload that decodes to
-- peer information for the sending daemon's identifier becomes what is known of that daemon there.
pub zero_port_announced :
    (bytes : ByteBuf) (pack : MessagePack) (env : World.Env) (uenv : State.Env)
    (receiver j : Identifier) (p : Peer) (payload : List ℕ) (u : State.World) (w v : World.World)
    (c conn : Connection) (chunks : List (List ℕ))
    → length payload < 65536
    → deserialize_from_msgpck pack payload ≡ peer_info (record { peer = p })
    → find_connection w.store receiver (Map.values w.network.sockets) ≡ some c
    → flatten chunks ≡ write_task bytes (map (λ f. queued f true) (data_frame 0 0 payload ∷ [])) []
    → ((State.serve uenv
          (some (ok (Codec.bind 0)) ∷ some (ok (Codec.data_frame receiver 0 payload)) ∷ [])
          u).trace
        ≡ State.upstream_sent receiver 0 0 payload (uenv.upstream_open u.trace) ∷ u.trace)
      × ((to_network env
            (record { host_id = receiver; src_port = 0; dst_port = 0; payload = payload } ∷ [])
            w).trace
          ≡ frame_sent c (data_frame 0 0 payload) (env.sink_open c w.trace) ∷ w.trace)
      × ((read_task env (λ _. true) conn p.id (map frame (feed bytes [] chunks).0) [] v).1
          ≡ record { host_id = p.id; src_port = 0; dst_port = 0; payload = payload } ∷ [])
      × (get_peer j (deliver_frame env pack p.id 0 0 payload v).1.network.pib
          ≡ ite (eq? p.id j) (some p) (get_peer j v.network.pib))
unfolding to_network deliver_frame State.serve
zero_port_announced bytes pack env uenv receiver j p payload u w v c conn chunks hl decoded found
      written =
    (
      refl,
      ap (λ x. x.trace) (send_frame_registered env receiver 0 0 payload w c found),
      write_task-read_task bytes env (λ _. true) conn p.id (data_frame 0 0 payload ∷ []) chunks v
          (λ o. refl) ((omega arith, omega arith, hl), tt) written,
      process_control_message-get_peer env pack p.id j payload v
          ∙ rw (announced_own pack p payload decoded) refl,
    )
