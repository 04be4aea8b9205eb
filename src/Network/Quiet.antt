-- ===== src/Network/Quiet.antt =====
-- Actions that leave the network state, the registered connections and the sockets' addresses as
-- they are, and only add to the trace: all sending of the network half.
use uip.Base.{ℕ, ◌≡◌, refl, ◌∙◌, List, [], ◌∷◌, Elem, there, arith}
use uip.Data.Identifier.{Identifier}
use uip.Transport.Connection.{send}
use uip.Transport.Socket.{io_connect, from_tls_stream}
use uip.Network.Pieces.{IsClosed}
use uip.World.{World, Env, Event, Trace, upstream_sent, SocketRef}

-- The messages that were sent to the local half, accepted or not, latest first.
abbrev pub upstreams : Trace → List (Identifier × ℕ × ℕ × List ℕ)
upstreams [] = []
upstreams (upstream_sent id s d payload accepted ∷ t) = (id, s, d, payload) ∷ upstreams t
upstreams (_ ∷ t) = upstreams t

pub record Quiet (w w' : World) : Type 0 where
  pub network : w'.network ≡ w.network
  pub address : (r : SocketRef) → (w'.store r).address ≡ (w.store r).address
  pub connections : (r : SocketRef) → (w'.store r).connections ≡ (w.store r).connections
  pub next_socket : w'.next_socket ≡ w.next_socket
  pub trace : (e : Event) → Elem e w.trace → Elem e w'.trace
  pub upstream : upstreams w'.trace ≡ upstreams w.trace

pub Quiet-refl : (w : World) → Quiet w w
Quiet-refl w = record {
  network = refl;
  address = λ r. refl;
  connections = λ r. refl;
  next_socket = refl;
  trace = λ e h. h;
  upstream = refl;
}

pub Quiet-trans : (u v w : World) → Quiet u v → Quiet v w → Quiet u w
Quiet-trans u v w p q = record {
  network = q.network ∙ p.network;
  address = λ r. q.address r ∙ p.address r;
  connections = λ r. q.connections r ∙ p.connections r;
  next_socket = q.next_socket ∙ p.next_socket;
  trace = λ e h. q.trace e (p.trace e h);
  upstream = q.upstream ∙ p.upstream;
}

-- Only an event, which is no message to the local half, and the next channel.
added :
    (w : World) (e : Event) (channel : ℕ)
    → upstreams (e ∷ w.trace) ≡ upstreams w.trace
    → Quiet w (record w { next_channel = channel; trace = e ∷ w.trace })
added w e channel h = record {
  network = refl;
  address = λ r. refl;
  connections = λ r. refl;
  next_socket = refl;
  trace = λ f g. there g;
  upstream = h;
}

pub Quiet-IsClosed : (env : Env) → IsClosed env Quiet
unfolding send io_connect from_tls_stream
Quiet-IsClosed env = record {
  reflexive = Quiet-refl;
  transitive = Quiet-trans;
  send = λ conn f w. added w _ _ refl;
  io_connect = λ r a w. record {
    network = refl;
    address = λ q. ground arith;
    connections = λ q. ground arith;
    next_socket = refl;
    trace = λ e h. h;
    upstream = refl;
  };
  from_tls_stream = λ id w. added w _ _ refl;
}
