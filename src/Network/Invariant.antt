-- ===== src/Network/Invariant.antt =====
-- What each handler of the network half keeps: sockets are bound to the addresses that they are
-- registered under, and connections were spawned as those of their peers.
use uip.Base.{
  ℕ, ◌<◌, ◌≡◌, refl, sym, ap, ◌∙◌, List, [], ◌∷◌, map, Elem, Elem-head, there, Option, none, some,
  Bool, true, false, Result, ok, err, arith, ℕ_discrete, Option-cases, Bool-cases, inl, inr, All,
  ◌==◌, ◌&&◌,
}
use uip.Base.Map
use uip.Base.Map.{Map, keys, get-insert_inv, get-remove_inv}
use uip.Data.Address.{SocketAddr, SocketAddrV6, socket_addr_v6_key, set_port}
use uip.Data.Identifier.{Identifier, identifier_key, Identifier-discrete}
use uip.Data.PeerInformationBase.{PeerInformationBase, get_peer, add_peer}
use uip.Discovery.{LocalAddress, AddressDiscoveryError}
use uip.Protocol.{
  MessagePack, Message, PeerInfo, peer_info, peer_info_request, invalid, deserialize_from_msgpck,
}
use uip.Network.Quiet.{Quiet, Quiet-IsClosed}
use uip.Network.Sockets.{
  close_socket_at, close_stale_sockets, stale_addresses, with_port, new_addresses, open_or_warn,
  open_new_sockets,
}
use uip.Network.Sockets.Opening.{with_socket, open_or_warn_cases}
use uip.Network.Peers.{process_message, process_control_message, deliver_frame}
use uip.Transport.Connection.{send_peer_info}
use uip.Transport.Socket.{accept_connection, close, new as new_socket}
use uip.Network.Pieces.{Does-send_peer_info}
use uip.Network.Pieces.Handlers.{Does-publish_addresses, Does-on_connection}
use uip.World.{World, Env, Connection, SocketRef, tasks_spawned, for_each, for_each_keeps}

pub record IsValid (w : World) : Type 0 where
  pub handle :
      (a : SocketAddrV6) (r : SocketRef) → Map.get a w.network.sockets ≡ some r → r < w.next_socket
  pub bound :
      (a : SocketAddrV6) (r : SocketRef)
      → Map.get a w.network.sockets ≡ some r
      → (w.store r).address.address ≡ a
  pub port :
      (a : SocketAddrV6) (r : SocketRef)
      → Map.get a w.network.sockets ≡ some r
      → a.port ≡ w.network.port
  pub spawned :
      (r : SocketRef) (id : Identifier) (c : Connection)
      → Map.get id (w.store r).connections ≡ some c
      → Elem (tasks_spawned c id) w.trace

pub Quiet-IsValid : (w w' : World) → Quiet w w' → IsValid w → IsValid w'
Quiet-IsValid w w' q v = record {
  handle = λ a r e. rw q.next_socket (v.handle a r (rw q.network at e));
  bound = λ a r e. ap (λ l. l.address) (q.address r) ∙ v.bound a r (rw q.network at e);
  port = λ a r e. rw q.network (v.port a r (rw q.network at e));
  spawned = λ r id c e. q.trace _ (v.spawned r id c (rw (q.connections r) at e));
}

pub accept-IsValid :
    (r : SocketRef) (session : Bool) (certificate : Option Identifier) (w : World)
    → IsValid w
    → IsValid (accept_connection r session certificate w).1
unfolding accept_connection
accept-IsValid r false certificate w v = v
accept-IsValid r true none w v = v
accept-IsValid r true (some id) w v = record {
  handle = v.handle;
  bound = λ a q e. ground (arith, v.bound a q e);
  port = v.port;
  spawned = λ q j c e. elim (ℕ_discrete q r) [
    | yes p ↦
        elim (get-insert_inv id j (record { sink = w.next_channel }) c (w.store r).connections
          (ground arith)) [ inl (s, z) ↦ Elem-head (cc) | inr f ↦ there (v.spawned r j c f) ]
    | no n ↦ there (v.spawned q j c (ground arith))
  ];
}

none_in_empty : (id : Identifier) (c : Connection) → ¬ (Map.get id [] ≡ some c)
unfolding Map.get
none_in_empty id c p = cc

close_socket_at-IsValid :
    (a : SocketAddrV6) (w : World) → IsValid w → IsValid (close_socket_at a w).1
unfolding close_socket_at close
close_socket_at-IsValid a w v = elim (Option-cases (Map.get a w.network.sockets)) [
  | inl e ↦ rw (e, close_socket_at) v
  | inr (r, e) ↦
      rw (e, close_socket_at)
        (record {
          handle = λ b q p. v.handle b q (get-remove_inv a b q w.network.sockets p);
          bound = λ b q p.
              let g = get-remove_inv a b q w.network.sockets p in ground (arith, v.bound b q g);
          port = λ b q p. v.port b q (get-remove_inv a b q w.network.sockets p);
          spawned = λ q id c p. elim (ℕ_discrete q r) [
            | yes s ↦ absurd (none_in_empty id c (ground arith))
            | no n ↦ there (v.spawned q id c (ground arith))
          ];
        })
]

-- A new socket at an address with the configured port.
with_socket-IsValid :
    (l : LocalAddress) (upd : SocketAddr) (w : World)
    → l.address.port ≡ w.network.port
    → IsValid w
    → IsValid (with_socket l upd w)
unfolding new_socket
with_socket-IsValid l upd w p v = record {
  handle = λ a r e. elim (get-insert_inv l.address a w.next_socket r w.network.sockets e) [
    | inl (s, z) ↦ omega arith
    | inr f ↦ let h = v.handle a r f in omega arith
  ];
  bound = λ a r e. elim (get-insert_inv l.address a w.next_socket r w.network.sockets e) [
    | inl (s, z) ↦ ground arith
    | inr f ↦ ground (arith, v.handle a r f, v.bound a r f)
  ];
  port = λ a r e. elim (get-insert_inv l.address a w.next_socket r w.network.sockets e) [
    | inl (s, z) ↦ ap (λ x. x.port) (sym s) ∙ p
    | inr f ↦ v.port a r f
  ];
  spawned = λ r id c e. elim (ℕ_discrete r w.next_socket) [
    | yes s ↦ absurd (none_in_empty id c (ground arith))
    | no n ↦ there (v.spawned r id c (ground arith))
  ];
}

pub open_or_warn-IsValid :
    (env : Env) (l : LocalAddress) (w : World)
    → l.address.port ≡ w.network.port
    → IsValid w
    → IsValid (open_or_warn env l w).1 × ((open_or_warn env l w).1.network.port ≡ w.network.port)
open_or_warn-IsValid env l w p v = elim (open_or_warn_cases env l w) [
  | inl e ↦ rw e (v, refl)
  | inr (a, e) ↦ rw e (with_socket-IsValid l a w p v, refl)
]

abbrev pub HasPort : ℕ → LocalAddress → Type 0
HasPort n l = l.address.port ≡ n

open_all-IsValid :
    (env : Env) (ls : List LocalAddress) (w : World)
    → All (HasPort w.network.port) ls
    → IsValid w
    → IsValid (for_each (open_or_warn env) ls w).1
unfolding for_each
open_all-IsValid env [] w h v = v
open_all-IsValid env (l ∷ ls) w h v =
    let (v', p) = open_or_warn-IsValid env l w h.0 v in
    open_all-IsValid env ls (open_or_warn env l w).1 (rw p h.1) v'

pub new_addresses-HasPort :
    (n : ℕ) (m : Map SocketAddrV6 SocketRef) (ls : List LocalAddress)
    → All (HasPort n) ls
    → All (HasPort n) (new_addresses m ls)
unfolding new_addresses
new_addresses-HasPort n m [] h = tt
new_addresses-HasPort n m (l ∷ ls) h = elim (Option-cases (Map.get l.address m)) [
  | inl e ↦ rw (e, new_addresses) (h.0, new_addresses-HasPort n m ls h.1)
  | inr (r, e) ↦ rw (e, new_addresses) (new_addresses-HasPort n m ls h.1)
]

pub with_port-HasPort : (n : ℕ) (ls : List LocalAddress) → All (HasPort n) (map (with_port n) ls)
unfolding with_port set_port
with_port-HasPort n [] = tt
with_port-HasPort n (l ∷ ls) = (refl, with_port-HasPort n ls)

pub close_stale-IsValid :
    (ls : List LocalAddress) (w : World)
    → IsValid w
    → IsValid (close_stale_sockets ls w).1
      × ((close_stale_sockets ls w).1.network.port ≡ w.network.port)
unfolding close_stale_sockets
close_stale-IsValid ls w v =
    for_each_keeps (λ u. IsValid u × (u.network.port ≡ w.network.port)) close_socket_at
      (stale_addresses ls (keys w.network.sockets))
      (λ a u h. (close_socket_at-IsValid a u h.0, port-close a u ∙ h.1)) w (v, refl)
  where
    port-close :
        (a : SocketAddrV6) (u : World) → (close_socket_at a u).1.network.port ≡ u.network.port
    port-close a u = unfold close_socket_at close in ground arith

pub open_new_sockets-IsValid :
    (env : Env) (pack : MessagePack) (d : Result (List LocalAddress) AddressDiscoveryError)
    (w : World)
    → IsValid w
    → IsValid (open_new_sockets env pack d w).1
unfolding open_new_sockets
open_new_sockets-IsValid env pack (err e) w v = v
open_new_sockets-IsValid env pack (ok found) w v =
    let addresses = map (with_port w.network.port) found in
    let w₁ = (close_stale_sockets addresses w).1 in
    let fresh = new_addresses w₁.network.sockets addresses in
    let (v₁, p) = close_stale-IsValid addresses w v in
    Quiet-IsValid (for_each (open_or_warn env) fresh w₁).1 _
      (Does-publish_addresses (Quiet-IsClosed env) pack (for_each (open_or_warn env) fresh w₁).1)
      (open_all-IsValid env fresh w₁
        (rw p (
          new_addresses-HasPort w.network.port w₁.network.sockets addresses
            (with_port-HasPort w.network.port found)))
        v₁)

-- Peer information changes the peer information base at most.
pub pib_only :
    (env : Env) (pack : MessagePack) (id : Identifier) (info : PeerInfo) (w : World)
    → (pib : PeerInformationBase) × ((process_message env pack id (peer_info info) w).1
        ≡ record w { network = record w.network { pib = pib } })
unfolding process_message
pib_only env pack id info w = elim (Identifier-discrete id info.peer.id) [
  | yes p ↦ (add_peer info.peer.id info.peer w.network.pib, ground arith)
  | no n ↦ (w.network.pib, ground arith)
]

pub process_message-IsValid :
    (env : Env) (pack : MessagePack) (id : Identifier) (m : Message) (w : World)
    → IsValid w
    → IsValid (process_message env pack id m w).1
unfolding process_message
process_message-IsValid env pack id (peer_info info) w v =
    let (pib, e) = pib_only env pack id info w in
    rw e (record { handle = v.handle; bound = v.bound; port = v.port; spawned = v.spawned })
process_message-IsValid env pack id (peer_info_request j) w v =
    elim (Option-cases (get_peer j w.network.pib)) [
      | inl e ↦ rw (e, process_message) v
      | inr (p, e) ↦
          rw (e, process_message)
            (Quiet-IsValid w _
              (Does-on_connection (Quiet-IsClosed env) id (λ c. send_peer_info env pack c p)
                (λ c. Does-send_peer_info (Quiet-IsClosed env) pack c p) w)
              v)
    ]
process_message-IsValid env pack id (invalid b) w v = v

pub deliver_frame-IsValid :
    (env : Env) (pack : MessagePack) (id : Identifier) (s d : ℕ) (payload : List ℕ) (w : World)
    → IsValid w
    → IsValid (deliver_frame env pack id s d payload w).1
unfolding deliver_frame process_control_message
deliver_frame-IsValid env pack id s d payload w v = elim (Bool-cases (s == 0 && d == 0)) [
  | inl t ↦ rw t (process_message-IsValid env pack id (deserialize_from_msgpck pack payload) w v)
  | inr f ↦ rw f (record {
    handle = v.handle;
    bound = v.bound;
    port = v.port;
    spawned = λ r j c e. there (v.spawned r j c e);
  })
]
