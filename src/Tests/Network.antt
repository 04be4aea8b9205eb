-- ===== src/Tests/Network.antt =====
-- The network half of network/state.rs, and what the daemon makes of it.
use uip.Base.{
  ◌≡◌, refl, [], ◌∷◌, map, none, some, true, false, ok, arith, ite, if◌then◌else◌, List, ℕ,
}
use uip.Base.Map
use uip.Base.Map.{eq?, values}
use uip.Bin.Uipd.{Message, to_local, to_network}
use uip.Bin.Uipd.Control.{zero_port_announced}
use uip.Bin.Uipd.Unreachable.{for_peer, refused, to_network-refused}
use uip.Bin.Uipd.Wiring.{message_delivered}
use uip.Data.Peer.{Peer}
use uip.Data.Address.{socket_addr_v6_key, v6}
use uip.Data.Identifier.{Identifier, identifier_key}
use uip.Data.PeerInformationBase.{get_peer}
use uip.Network.Reachable.{
  Reach-IsValid, IsStart, Reach, start, next, network_changed, peer_accepted,
}
use uip.Network.Peers.{find_connection, send_frame, process_control_message, deliver_frame}
use uip.Network.Peers.Sending.{send_frame-find_connection}
use uip.Network.Peers.Trust.{announced, process_control_message-get_peer}
use uip.Network.Sockets.{open_new_sockets, is_current, with_port}
use uip.Network.Invariant.{IsValid}
use uip.Network.Sockets.Opened.{AllBind}
use uip.Network.Sockets.Changed.{Stays, Ends, open_new_sockets-changed}
use uip.Protocol.{deserialize_from_msgpck, peer_info}
use uip.Tests.Fixtures.{bytes, pack, env, alice, bob, address, host_address, started, connected}
use uip.Transport.Codec.{data_frame, encode}
use uip.Transport.Codec.Stream.{feed, flatten}
use uip.Transport.Connection.Tasks.{frame, queued, write_task, read_task}
use uip.Transport.Socket.{accept_connection}
use uip.Unix.Codec
use uip.Unix.State
use uip.Unix.State.{port_key}
use uip.World
use uip.World.{World, frame_sent, upstream_sent}

pub started-IsStart : IsStart started
started-IsStart = record {
  identifier = alice;
  pib = record { peers = [] };
  relays = [];
  configured = 7;
  network = unfold uip.Network.Sockets.new in refl;
  unconnected = λ r. refl;
}

-- A daemon that finds an address and accepts a peer.
abbrev changed : World
changed = (open_new_sockets env pack (ok (host_address ∷ [])) started).1

abbrev pub accepted : World
accepted = (accept_connection 0 true (some bob) changed).1

pub accepted-Reach : Reach env pack started accepted
accepted-Reach =
    next (next start (network_changed (ok (host_address ∷ [])) started))
      (peer_accepted 0 true (some bob) changed)

pub env-AllBind : AllBind env
env-AllBind = record { bound = λ l t. (v6 l.address, refl); accepting = λ t. refl }

accepted-IsValid : IsValid accepted
accepted-IsValid = Reach-IsValid accepted-Reach started-IsStart

open_new_sockets-changed_example :
    let after = (open_new_sockets env pack (ok []) accepted).1 in
    if is_current (map (with_port accepted.network.port) []) address
    then Stays (Map.get address accepted.network.sockets) address accepted after
    else (Map.get address after.network.sockets ≡ none)
      × Ends (Map.get address accepted.network.sockets) after
open_new_sockets-changed_example =
    open_new_sockets-changed env pack [] accepted address accepted-IsValid

process_control_message-get_peer_example :
    get_peer bob (process_control_message env pack bob (0 ∷ bob.bytes) connected).1.network.pib
    ≡ elim (announced bob (deserialize_from_msgpck pack (0 ∷ bob.bytes))) [
      | none ↦ get_peer bob connected.network.pib
      | some p ↦ ite (eq? bob bob) (some p) (get_peer bob connected.network.pib)
    ]
process_control_message-get_peer_example =
    process_control_message-get_peer env pack bob bob (0 ∷ bob.bytes) connected

found : find_connection connected.store bob (0 ∷ []) ≡ some (record { sink = 3 })
unfolding find_connection Map.get
found = ground arith

send_frame-find_connection_example :
    let w' = (send_frame env alice 80 81 (5 ∷ []) connected).1 in
    find_connection w'.store alice (values w'.network.sockets)
    ≡ find_connection connected.store alice (values connected.network.sockets)
send_frame-find_connection_example =
    send_frame-find_connection env alice alice 80 81 (5 ∷ []) connected

abbrev local_env : State.Env
local_env = record { upstream_open = λ t. true; sender_open = λ s t. true }

abbrev local : State.World
local = record {
  state = record { ctl_socket = []; connections = (81, 6) ∷ [] };
  next_sender = 7;
  trace = [];
}

abbrev message : Identifier → Message
message id = record { host_id = id; src_port = 80; dst_port = 81; payload = 5 ∷ [] }

wire_of_message :
    flatten ((3 ∷ 0 ∷ 80 ∷ 0 ∷ []) ∷ (81 ∷ 0 ∷ 1 ∷ 5 ∷ []) ∷ [])
    ≡ write_task bytes (map (λ f. queued f true) (data_frame 80 81 (5 ∷ []) ∷ [])) []
unfolding write_task encode
wire_of_message = refl

bound_to_port : Map.get 81 local.state.connections ≡ some 6
unfolding Map.get
bound_to_port = ground arith

message_delivered_example :
    ((to_network env (message bob ∷ []) connected).trace
      ≡ frame_sent (record { sink = 3 }) (data_frame 80 81 (5 ∷ [])) true ∷ [])
    × ((read_task env
          (λ _. true)
          (record { sink = 9 })
          alice
          (map frame (feed bytes [] ((3 ∷ 0 ∷ 80 ∷ 0 ∷ []) ∷ (81 ∷ 0 ∷ 1 ∷ 5 ∷ []) ∷ [])).0)
          []
          started).1
        ≡ record { host_id = alice; src_port = 80; dst_port = 81; payload = 5 ∷ [] } ∷ [])
    × ((deliver_frame env pack alice 80 81 (5 ∷ []) started).1.trace
        ≡ upstream_sent alice 80 81 (5 ∷ []) true ∷ [])
    × ((to_local local_env (message alice ∷ []) local).trace
        ≡ State.locally_sent 6 (Codec.data_frame alice 80 (5 ∷ [])) true ∷ [])
message_delivered_example =
    message_delivered bytes pack env local_env alice bob 80 81 (5 ∷ []) connected started local
      (record { sink = 3 }) (record { sink = 9 }) 6
      ((3 ∷ 0 ∷ 80 ∷ 0 ∷ []) ∷ (81 ∷ 0 ∷ 1 ∷ 5 ∷ []) ∷ []) (omega arith) (omega arith) (omega arith)
      refl found wire_of_message bound_to_port

-- Peer information of alice without addresses, sent by a program of alice.
abbrev alice_peer : Peer
alice_peer = record { id = alice; addresses = []; relays = [] }

abbrev forged : List (List ℕ)
forged = (3 ∷ 0 ∷ 0 ∷ 0 ∷ 0 ∷ 0 ∷ 33 ∷ []) ∷ (0 ∷ alice.bytes) ∷ []

wire_of_forged :
    flatten forged
    ≡ write_task bytes (map (λ f. queued f true) (data_frame 0 0 (0 ∷ alice.bytes) ∷ [])) []
unfolding write_task encode
wire_of_forged = refl

decoded_forged :
    deserialize_from_msgpck pack (0 ∷ alice.bytes) ≡ peer_info (record { peer = alice_peer })
unfolding deserialize_from_msgpck
decoded_forged = refl

zero_port_announced_example :
    ((State.serve local_env
        (some (ok (Codec.bind 0)) ∷ some (ok (Codec.data_frame bob 0 (0 ∷ alice.bytes))) ∷ [])
        local).trace
      ≡ State.upstream_sent bob 0 0 (0 ∷ alice.bytes) true ∷ [])
    × ((to_network env
          (record { host_id = bob; src_port = 0; dst_port = 0; payload = 0 ∷ alice.bytes } ∷ [])
          connected).trace
        ≡ frame_sent (record { sink = 3 }) (data_frame 0 0 (0 ∷ alice.bytes)) true ∷ [])
    × ((read_task env
          (λ _. true)
          (record { sink = 9 })
          alice
          (map frame (feed bytes [] forged).0)
          []
          started).1
        ≡ record { host_id = alice; src_port = 0; dst_port = 0; payload = 0 ∷ alice.bytes } ∷ [])
    × (get_peer alice (deliver_frame env pack alice 0 0 (0 ∷ alice.bytes) started).1.network.pib
        ≡ ite (eq? alice alice) (some alice_peer) (get_peer alice started.network.pib))
zero_port_announced_example =
    zero_port_announced bytes pack env local_env bob alice alice_peer (0 ∷ alice.bytes) local
      connected started (record { sink = 3 }) (record { sink = 9 }) forged (omega arith)
      decoded_forged found wire_of_forged

-- A daemon whose connection to bob has ended.
abbrev ended_env : World.Env
ended_env = record env { sink_open = λ c t. false }

to_network-refused_example :
    let after =
      to_network ended_env (for_peer bob ((80, 81, 5 ∷ []) ∷ (80, 81, 6 ∷ []) ∷ [])) connected in
    (after ≡ record connected {
      trace =
          refused (record { sink = 3 }) ((80, 81, 5 ∷ []) ∷ (80, 81, 6 ∷ []) ∷ []) connected.trace;
    })
    × (find_connection after.store bob (values after.network.sockets) ≡ some (record { sink = 3 }))
to_network-refused_example =
    to_network-refused ended_env bob (record { sink = 3 })
      ((80, 81, 5 ∷ []) ∷ (80, 81, 6 ∷ []) ∷ []) connected (λ t. refl) found
