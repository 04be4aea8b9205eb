-- ===== src/Transport/Connection.antt =====
-- network/transport/connection.rs: the tasks of a connection and what is sent through it.
pub mod Tasks
pub mod Link
use uip.Base.{ℕ, List, [], ◌∷◌, Bool, Result, ok, err}
use uip.Data.Identifier.{Identifier}
use uip.Data.Peer.{Peer}
use uip.Protocol.{Message, peer_info, peer_info_request, MessagePack, serialize_to_msgpck}
use uip.Transport.Codec.{Frame, data_frame}
use uip.World.{Connection, Env, M, ◌>>=◌, ◌>>◌, pure, World, frame_sent}

-- `self.sink.send(f).await`: waits while the channel is full, and fails if it is closed.
unfoldable pub send : Env → Connection → Frame → M Bool
send env conn f w =
    let accepted = env.sink_open conn w.trace in
    (accepted, record w { trace = frame_sent conn f accepted ∷ w.trace })

module _ (env : Env) where
  -- A failure is only logged.
  unfoldable pub send_frame : Connection → Frame → M (Unit {0})
  send_frame conn f = do accepted ← send env conn f; pure tt

  unfoldable pub send_data_frame : Connection → ℕ → ℕ → List ℕ → M Bool
  send_data_frame conn src_port dst_port payload =
      send env conn (data_frame src_port dst_port payload)

  module _ (pack : MessagePack) where
    unfoldable pub send_control_message : Connection → Message → M (Unit {0})
    unfolding send_data_frame
    send_control_message conn msg = elim (serialize_to_msgpck pack msg []) [
      | err _ ↦ pure tt
      | ok buf ↦ do accepted ← send_data_frame conn 0 0 buf; pure tt
    ]

    unfoldable pub send_peer_info_request : Connection → Identifier → M (Unit {0})
    unfolding send_control_message
    send_peer_info_request conn peer_id = send_control_message conn (peer_info_request peer_id)

    unfoldable pub send_peer_info : Connection → Peer → M (Unit {0})
    unfolding send_control_message
    send_peer_info conn peer = send_control_message conn (peer_info (record { peer = peer }))
