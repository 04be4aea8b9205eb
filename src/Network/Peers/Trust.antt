-- ===== src/Network/Peers/Trust.antt =====
-- Whose word the peer information base takes.
use uip.Base.{
  ℕ, ◌≡◌, refl, ◌∙◌, List, ◌∷◌, Option, none, some, ok, arith, ap, Option-cases, Bool-cases, inl,
  inr, if◌then◌else◌, ite, ◌&&◌, ◌==◌,
}
use uip.Base.Map.{eq?}
use uip.Data.Identifier.{Identifier, identifier_key, Identifier-discrete}
use uip.Data.Peer.{Peer}
use uip.Data.PeerInformationBase.{get_peer}
use uip.Data.PeerInformationBase.Lookups.{get_peer-add_peer}
use uip.Protocol.{
  MessagePack, plain_peer, Message, peer_info, peer_info_request, invalid, deserialize_from_msgpck,
  serialize_to_msgpck,
}
use uip.Network.Quiet.{upstreams, Quiet-IsClosed}
use uip.Network.Peers.{process_message, process_control_message, deliver_frame}
use uip.Transport.Codec.{data_frame}
use uip.Transport.Connection.{send_peer_info, send_control_message, send_data_frame, send}
use uip.Network.Pieces.{Does-send_peer_info}
use uip.Network.Pieces.Handlers.{Does-on_connection}
use uip.World.{World, Connection, Env, frame_sent}

-- The peer information that a message announces, if its sender may announce it.
abbrev pub announced : Identifier → Message → Option Peer
announced host_id (peer_info info) = elim (Identifier-discrete host_id info.peer.id) [
  | yes _ ↦ some info.peer
  | no _ ↦ none
]
announced host_id (peer_info_request id) = none
announced host_id (invalid bytes) = none

module _ (env : Env) (pack : MessagePack) where
  process_message-get_peer :
      (host_id j : Identifier) (m : Message) (w : World)
      → get_peer j (process_message env pack host_id m w).1.network.pib
        ≡ elim (announced host_id m) [
          | none ↦ get_peer j w.network.pib
          | some p ↦ ite (eq? host_id j) (some p) (get_peer j w.network.pib)
        ]
  unfolding process_message
  process_message-get_peer host_id j (peer_info info) w =
      ground (arith, get_peer-add_peer info.peer.id j info.peer w.network.pib)
  process_message-get_peer host_id j (peer_info_request id) w =
      elim (Option-cases (get_peer id w.network.pib)) [
        | inl e ↦ rw (e, process_message)
        | inr (p, e) ↦
            rw (e, process_message)
              (ap (λ n. get_peer j n.pib)
                (Does-on_connection (Quiet-IsClosed env) host_id _
                  (λ c. Does-send_peer_info (Quiet-IsClosed env) pack c p) w).network)
      ]
  process_message-get_peer host_id j (invalid bytes) w = refl

  -- A control message from `host_id` changes what is known of a peer only if it decodes to peer
  -- information of `host_id` itself; then that is what is known of `host_id`, and nothing else changes.
  pub process_control_message-get_peer :
      (host_id j : Identifier) (payload : List ℕ) (w : World)
      → get_peer j (process_control_message env pack host_id payload w).1.network.pib
        ≡ elim (announced host_id (deserialize_from_msgpck pack payload)) [
          | none ↦ get_peer j w.network.pib
          | some p ↦ ite (eq? host_id j) (some p) (get_peer j w.network.pib)
        ]
  unfolding process_control_message
  process_control_message-get_peer host_id j payload w =
      process_message-get_peer host_id j (deserialize_from_msgpck pack payload) w

  process_message-upstreams :
      (host_id : Identifier) (m : Message) (w : World)
      → upstreams (process_message env pack host_id m w).1.trace ≡ upstreams w.trace
  unfolding process_message
  process_message-upstreams host_id (peer_info info) w = ground arith
  process_message-upstreams host_id (peer_info_request id) w =
      elim (Option-cases (get_peer id w.network.pib)) [
        | inl e ↦ rw (e, process_message)
        | inr (p, e) ↦
            rw (e, process_message)
              (Does-on_connection (Quiet-IsClosed env) host_id
                (λ conn. send_peer_info env pack conn p)
                (λ c. Does-send_peer_info (Quiet-IsClosed env) pack c p) w).upstream
      ]
  process_message-upstreams host_id (invalid bytes) w = refl

  -- A frame from a peer is sent to the local half exactly once, as it is and under the peer's
  -- identifier, unless both its ports are zero; then nothing is sent to the local half.
  pub deliver_frame-upstreams :
      (host_id : Identifier) (s d : ℕ) (payload : List ℕ) (w : World)
      → upstreams (deliver_frame env pack host_id s d payload w).1.trace ≡ (
          if s == 0 && d == 0
          then upstreams w.trace
          else (host_id, s, d, payload) ∷ upstreams w.trace)
  unfolding deliver_frame process_control_message
  deliver_frame-upstreams host_id s d payload w = elim (Bool-cases (s == 0 && d == 0)) [
    | inl t ↦ rw t (process_message-upstreams host_id (deserialize_from_msgpck pack payload) w)
    | inr f ↦ rw f
  ]

  -- Peer information of `p` that can be serialised is sent as a data frame between the ports zero,
  -- and a daemon that receives this frame from `p` itself then knows this of `p`, its addresses by ip and port, and as
  -- much as before of every other peer.
  pub send_peer_info-deliver_frame :
      (conn : Connection) (p : Peer) (buf : List ℕ) (j : Identifier) (w v : World)
      → pack.serialize (peer_info (record { peer = p })) ≡ ok buf
      → ((send_peer_info env pack conn p w).1.trace
          ≡ frame_sent conn (data_frame 0 0 buf) (env.sink_open conn w.trace) ∷ w.trace)
        × (get_peer j (deliver_frame env pack p.id 0 0 buf v).1.network.pib
            ≡ ite (eq? p.id j) (some (plain_peer p)) (get_peer j v.network.pib))
  unfolding deliver_frame send_peer_info send_data_frame send serialize_to_msgpck
      deserialize_from_msgpck
  send_peer_info-deliver_frame conn p buf j w v e = (
    rw (e, send_control_message),
    process_control_message-get_peer p.id j buf v ∙ rw (read_back, itself),
  )
    where
      read_back : deserialize_from_msgpck pack buf ≡ peer_info (record { peer = plain_peer p })
      read_back =
          unfold deserialize_from_msgpck in
          rw (
            pack.deserialize-serialize (peer_info (record { peer = p })) buf e,
            deserialize_from_msgpck,
          )

      itself : announced p.id (peer_info (record { peer = plain_peer p })) ≡ some (plain_peer p)
      itself = ground arith
