-- ===== src/Network/Reachable.antt =====
-- What holds of the network half in every state that it can reach, whatever happens to it in whatever
-- order.
use uip.Base.Map
use uip.Data.Address.{socket_addr_v6_key, SocketAddrV6}
use uip.Data.PeerInformationBase.{PeerInformationBase}
use uip.Network.Sockets
use uip.Base.{ℕ, ◌≡◌, ◌∙◌, ap, refl, List, [], Option, some, Bool, Result}
use uip.Data.Identifier.{Identifier, identifier_key}
use uip.Discovery.{LocalAddress, AddressDiscoveryError}
use uip.Protocol.{MessagePack}
use uip.Network.Sockets.{open_new_sockets}
use uip.Network.Peers.{
  add_relay, send_frame, connect_to_relays_on_socket, request_peer_info, deliver_frame,
}
use uip.Transport.Socket.{accept_connection}
use uip.Network.Quiet.{Quiet-IsClosed}
use uip.Network.Pieces.Handlers.{
  Does-send_frame, Does-connect_to_relays_on_socket, Does-request_peer_info,
}
use uip.World.{World, Env, SocketRef, Connection}
use uip.Network.Invariant.{
  IsValid, Quiet-IsValid, accept-IsValid, open_new_sockets-IsValid, deliver_frame-IsValid,
}

-- Everything that happens to the network half: a change of the host's addresses, a peer that connects,
-- a frame that arrives, a frame of a local program, and the tasks that are spawned.
pub data Step (env : Env) (pack : MessagePack) : World → World → Type 0 where
  network_changed :
      (d : Result (List LocalAddress) AddressDiscoveryError) (w : World)
      → Step env pack w (open_new_sockets env pack d w).1
  peer_accepted :
      (r : SocketRef) (session : Bool) (certificate : Option Identifier) (w : World)
      → Step env pack w (accept_connection r session certificate w).1
  frame_received :
      (id : Identifier) (s d : ℕ) (payload : List ℕ) (w : World)
      → Step env pack w (deliver_frame env pack id s d payload w).1
  frame_requested :
      (id : Identifier) (s d : ℕ) (payload : List ℕ) (w : World)
      → Step env pack w (send_frame env id s d payload w).1
  relays_due :
      (r : SocketRef) (w : World) → Step env pack w (connect_to_relays_on_socket env pack r w).1
  peer_requested :
      (id : Identifier) (w : World) → Step env pack w (request_peer_info env pack id w).1
  relay_added : (id : Identifier) (w : World) → Step env pack w (add_relay id w).1

pub data Reach (env : Env) (pack : MessagePack) (s : World) : World → Type 0 where
  start : Reach env pack s s
  next : {t u : World} → Reach env pack s t → Step env pack t u → Reach env pack s u

Step-IsValid :
    {env : Env} {pack : MessagePack} {w w' : World} → Step env pack w w' → IsValid w → IsValid w'
Step-IsValid {env} {pack} (network_changed d w) v = open_new_sockets-IsValid env pack d w v
Step-IsValid (peer_accepted r session certificate w) v = accept-IsValid r session certificate w v
Step-IsValid {env} {pack} (frame_received id s d p w) v =
    deliver_frame-IsValid env pack id s d p w v
Step-IsValid {env} (frame_requested id s d p w) v =
    Quiet-IsValid w _ (Does-send_frame (Quiet-IsClosed env) id s d p w) v
Step-IsValid {env} {pack} (relays_due r w) v =
    Quiet-IsValid w _ (Does-connect_to_relays_on_socket (Quiet-IsClosed env) pack r w) v
Step-IsValid {env} {pack} (peer_requested id w) v =
    Quiet-IsValid w _ (Does-request_peer_info (Quiet-IsClosed env) pack id w) v
Step-IsValid (relay_added id w) v =
    unfold add_relay in
    record { handle = v.handle; bound = v.bound; port = v.port; spawned = v.spawned }

-- The network half as it starts: no socket is open, and none has a connection.
pub record IsStart (w : World) : Type 0 where
  pub identifier : Identifier
  pub pib : PeerInformationBase
  pub relays : List Identifier
  pub configured : ℕ
  pub network : w.network ≡ Sockets.new identifier pib relays configured
  pub unconnected : (r : SocketRef) → (w.store r).connections ≡ []

none_in_empty : {V : Type 0} (a : SocketAddrV6) (v : V) → ¬ (Map.get a [] ≡ some v)
unfolding Map.get
none_in_empty a v p = cc

no_connection : (id : Identifier) (c : Connection) → ¬ (Map.get id [] ≡ some c)
unfolding Map.get
no_connection id c p = cc

pub start-empty :
    (w : World)
    → IsStart w
    → (a : SocketAddrV6) (r : SocketRef) → ¬ (Map.get a w.network.sockets ≡ some r)
start-empty w s a r e = none_in_empty a r (rw sockets at e)
  where
    sockets : w.network.sockets ≡ []
    sockets = ap (λ n. n.sockets) s.network ∙ unfold Sockets.new in refl

pub start-IsValid : (w : World) → IsStart w → IsValid w
start-IsValid w s = record {
  handle = λ a r e. absurd (start-empty w s a r e);
  bound = λ a r e. absurd (start-empty w s a r e);
  port = λ a r e. absurd (start-empty w s a r e);
  spawned = λ r id c e. absurd (no_connection id c (rw (s.unconnected r) at e));
}

Reach-keeps :
    {env : Env} {pack : MessagePack} {s w : World} → Reach env pack s w → IsValid s → IsValid w
Reach-keeps start v = v
Reach-keeps (next r st) v = Step-IsValid st (Reach-keeps r v)

-- In every state that is reached from the start: each open socket is bound to the address under which
-- it is registered, which has the configured port, its reference is in use, and each connection that a
-- socket has registered under an identifier was spawned as that peer's.
pub Reach-IsValid :
    {env : Env} {pack : MessagePack} {s w : World} → Reach env pack s w → IsStart s → IsValid w
Reach-IsValid {s} r h = Reach-keeps r (start-IsValid s h)
