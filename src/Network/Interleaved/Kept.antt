-- ===== src/Network/Interleaved/Kept.antt =====
-- What every step of the interleaved handlers keeps of the sockets, the addresses and what is to be opened.
use uip.Base.{
  ◌≡◌, refl, sym, ◌∙◌, ap, List, ◌∷◌, map, Option, none, some, Bool, true, false, arith, All,
  Option-cases, inl, inr, ◌⊎◌,
}
use uip.Base.Map
use uip.Base.Map.{Map, get-insert, eq?}
use uip.Data.Address.{SocketAddrV6, socket_addr_v6_key, SocketAddrV6-discrete}
use uip.Data.Identifier.{Identifier, identifier_key}
use uip.Data.PeerInformationBase.{PeerInformationBase}
use uip.Discovery.{LocalAddress}
use uip.Network.Interleaved.{
  System, found, acted, opened, Step, finds, opens, sends, dials, shakes, accepts, learns, hands_on,
  adds_relay, reorders, reordered,
}
use uip.Network.Invariant.{
  IsValid, Quiet-IsValid, accept-IsValid, close_stale-IsValid, open_or_warn-IsValid, HasPort,
  new_addresses-HasPort, with_port-HasPort, process_message-IsValid, deliver_frame-IsValid,
  pib_only,
}
use uip.Network.Peers.{add_relay, deliver_frame}
use uip.Network.Pieces.{Does, IsClosed}
use uip.Network.Quiet.{Quiet, Quiet-IsClosed}
use uip.Network.Sockets.{is_current, close_stale_sockets, with_port}
use uip.Network.Sockets.Opened.{
  AllBind, open_found, open_keeps_some, open_succeeds, new_addresses-current,
}
use uip.Network.Sockets.Stale.{close_stale_sockets-get}
use uip.Protocol.{MessagePack, peer_info}
use uip.Transport.Connection.{send}
use uip.Transport.Socket.{accept_connection, from_tls_stream, io_connect}
use uip.World.{World, Env, M, SocketRef, Connection}

module _ (env : Env) (pack : MessagePack) where
  pub record IsKept (s : System) : Type 0 where
    pub valid : IsValid s.world
    pub last : s.addresses ≡ map (with_port s.world.network.port) s.discovered
    pub ports : All (HasPort s.world.network.port) s.pending
    pub only :
        (a : SocketAddrV6) (r : SocketRef)
        → Map.get a s.world.network.sockets ≡ some r
        → is_current s.addresses a ≡ true
    pub wanted :
        (a : SocketAddrV6) → is_current s.pending a ≡ true → is_current s.addresses a ≡ true
    pub opening :
        AllBind env
        → (a : SocketAddrV6) → is_current s.addresses a ≡ true
        → ((r : SocketRef) × (Map.get a s.world.network.sockets ≡ some r))
          ⊎ (is_current s.pending a ≡ true)

  -- A step that opens and closes no socket.
  acted-IsKept :
      (s : System) (w : World)
      → w.network.sockets ≡ s.world.network.sockets
      → w.network.port ≡ s.world.network.port
      → IsValid w
      → IsKept s
      → IsKept (record s { world = w })
  acted-IsKept s w same port v k = record {
    valid = v;
    last = k.last ∙ ap (λ p. map (with_port p) s.discovered) (sym port);
    ports = rw port k.ports;
    only = λ a r e. k.only a r (rw same at e);
    wanted = k.wanted;
    opening = λ b a t. rw same (k.opening b a t);
  }

  found-IsKept :
      (discovered : List LocalAddress) (s : System)
      → IsKept s
      → IsKept (record (found discovered s) { discovered = discovered })
  unfolding found
  found-IsKept discovered s k =
      let addresses = map (with_port s.world.network.port) discovered in
      let w = (close_stale_sockets addresses s.world).1 in
      let (v, p) = close_stale-IsValid addresses s.world k.valid in
      record {
        valid = v;
        last = ap (λ q. map (with_port q) discovered) (sym p);
        ports = rw p (
            new_addresses-HasPort s.world.network.port w.network.sockets addresses
              (with_port-HasPort s.world.network.port discovered));
        only = λ a r e. ground (arith, (close_stale_sockets-get addresses a s.world).0, e);
        wanted = λ a t. ground (arith, new_addresses-current env w.network.sockets addresses a, t);
        opening = λ b a t. elim (Option-cases (Map.get a w.network.sockets)) [
          | inl e ↦
              inr (ground (arith, new_addresses-current env w.network.sockets addresses a, e, t))
          | inr (r, e) ↦ inl (r, e)
        ];
      }

  opened-IsKept :
      (l : LocalAddress) (rest : List LocalAddress) (s : System)
      → s.pending ≡ l ∷ rest
      → IsKept s
      → IsKept (opened env l rest s)
  unfolding opened is_current
  opened-IsKept l rest s e k =
      let ports = rw e at k.ports in
      let (v, p) = open_or_warn-IsValid env l s.world ports.0 k.valid in
      record {
        valid = v;
        last = k.last ∙ ap (λ q. map (with_port q) s.discovered) (sym p);
        ports = rw p ports.1;
        only = λ a r g. elim (open_found env l a s.world r g) [
          | inl q ↦ k.wanted a (rw e (ground (arith, q)))
          | inr h ↦ k.only a r h
        ];
        wanted = λ a t. k.wanted a (rw e (ground (arith, t)));
        opening = λ b a t. elim (k.opening b a t) [
          | inl h ↦ inl (open_keeps_some env l a s.world h)
          | inr c ↦ elim (SocketAddrV6-discrete l.address a) [
            | yes q ↦
                let (r, z) = open_succeeds env l s.world b in
                inl (r, rw z (ground (arith, get-insert l.address a r s.world.network.sockets)))
            | no n ↦ inr (let c' = rw e at c in ground (arith, c', n))
          ]
        ];
      }

  Quiet-IsKept : {A : Type 0} (s : System) (m : M A) → Does Quiet m → IsKept s → IsKept (acted m s)
  Quiet-IsKept s m quiet k =
      let q = quiet s.world in
      acted-IsKept s (m s.world).1 (ap (λ n. n.sockets) q.network) (ap (λ n. n.port) q.network)
        (Quiet-IsValid s.world (m s.world).1 q k.valid) k

  accept-network :
      (r : SocketRef) (session : Bool) (certificate : Option Identifier) (w : World)
      → (accept_connection r session certificate w).1.network ≡ w.network
  unfolding accept_connection from_tls_stream
  accept-network r false certificate w = refl
  accept-network r true none w = refl
  accept-network r true (some id) w = refl

  reordered-IsKept :
      (pib : PeerInformationBase) (sockets : Map SocketAddrV6 SocketRef)
      (connections : SocketRef → Map Identifier Connection) (s : System)
      → ((a : SocketAddrV6) → Map.get a sockets ≡ Map.get a s.world.network.sockets)
      → ((r : SocketRef) (id : Identifier)
          → Map.get id (connections r) ≡ Map.get id (s.world.store r).connections)
      → IsKept s
      → IsKept (reordered pib sockets connections s)
  reordered-IsKept pib sockets connections s same_sockets same_connections k =
      let v = k.valid in
      record {
        valid = record {
          handle = λ a r e. v.handle a r (sym (same_sockets a) ∙ e);
          bound = λ a r e. v.bound a r (sym (same_sockets a) ∙ e);
          port = λ a r e. v.port a r (sym (same_sockets a) ∙ e);
          spawned = λ r id c e. v.spawned r id c (sym (same_connections r id) ∙ e);
        };
        last = k.last;
        ports = k.ports;
        only = λ a r e. k.only a r (sym (same_sockets a) ∙ e);
        wanted = k.wanted;
        opening = λ b a t. elim (k.opening b a t) [
          | inl (r, e) ↦ inl (r, same_sockets a ∙ e)
          | inr p ↦ inr p
        ];
      }

  quiet : IsClosed env Quiet
  quiet = Quiet-IsClosed env

  pub Step-IsKept : {s t : System} → Step env pack s t → IsKept s → IsKept t
  Step-IsKept {s} (finds discovered e) k = found-IsKept discovered s k
  Step-IsKept {s} (opens l rest e) k = opened-IsKept l rest s e k
  Step-IsKept {s} (sends conn f) k = Quiet-IsKept s (send env conn f) (quiet.send conn f) k
  Step-IsKept {s} (dials r a) k = Quiet-IsKept s (io_connect r a) (quiet.io_connect r a) k
  Step-IsKept {s} (shakes id) k = Quiet-IsKept s (from_tls_stream id) (quiet.from_tls_stream id) k
  Step-IsKept {s} (accepts r session certificate) k =
      let e = accept-network r session certificate s.world in
      acted-IsKept s _ (ap (λ n. n.sockets) e) (ap (λ n. n.port) e)
        (accept-IsValid r session certificate s.world k.valid) k
  Step-IsKept {s} (learns id info) k =
      let (pib, e) = pib_only env pack id info s.world in
      acted-IsKept s _ (ap (λ w. w.network.sockets) e) (ap (λ w. w.network.port) e)
        (process_message-IsValid env pack id (peer_info info) s.world k.valid) k
  Step-IsKept {s} (hands_on id p d payload e) k =
      let n : (deliver_frame env pack id p d payload s.world).1.network ≡ s.world.network =
        unfold deliver_frame in rw e refl in
      acted-IsKept s _ (ap (λ n. n.sockets) n) (ap (λ n. n.port) n)
        (deliver_frame-IsValid env pack id p d payload s.world k.valid) k
  Step-IsKept {s} (adds_relay id) k =
      unfold add_relay in
      acted-IsKept s _ refl refl
        (let v = k.valid in
          record { handle = v.handle; bound = v.bound; port = v.port; spawned = v.spawned })
        k
  Step-IsKept {s} (reorders pib sockets connections p a c) k =
      reordered-IsKept pib sockets connections s a c k
