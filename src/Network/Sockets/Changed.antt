-- ===== src/Network/Sockets/Changed.antt =====
-- What `open_new_sockets` does to a socket that was open.
use uip.Base.{
  ◌<◌, ◌≤◌, ◌≡◌, ◌≢◌, refl, sym, ap, ◌∙◌, List, [], ◌∷◌, map, Option, none, some, true, false, ok,
  arith, if◌then◌else◌, Option-cases, Bool-cases, inl, inr, Elem, there, All,
}
use uip.Base.Map
use uip.Base.Map.{eq?, get-remove_inv, keys}
use uip.Data.Address.{SocketAddrV6, socket_addr_v6_key}
use uip.Discovery.{LocalAddress}
use uip.Network.Invariant.{IsValid}
use uip.Network.Pieces.Handlers.{Does-publish_addresses}
use uip.Network.Quiet.{Quiet-IsClosed}
use uip.Network.Sockets.{
  is_current, with_port, new_addresses, close_socket_at, stale_addresses, close_stale_sockets,
  open_or_warn, open_new_sockets,
}
use uip.Network.Sockets.Opened.{open_new_sockets-kept}
use uip.Network.Sockets.Opening.{open_or_warn_cases}
use uip.Network.Sockets.Stale.{close_stale_sockets-get, stale_addresses-All}
use uip.Protocol.{MessagePack}
use uip.Transport.Socket.{close}
use uip.World.{World, Env, SocketRef, Event, io_closed, for_each, for_each_keeps}

-- Only `a` has the socket `r`.
abbrev Alone : SocketAddrV6 → SocketRef → World → Type 0
Alone a r w = (b : SocketAddrV6) → Map.get b w.network.sockets ≡ some r → b ≡ a

abbrev Same : SocketRef → World → World → Type 0
Same r w v = (v.store r).connections ≡ (w.store r).connections

close_Alone :
    (a b : SocketAddrV6) (r : SocketRef) (w : World)
    → Alone a r w
    → Alone a r (close_socket_at b w).1
unfolding close_socket_at close
close_Alone a b r w h = elim (Option-cases (Map.get b w.network.sockets)) [
  | inl e ↦ rw (e, close_socket_at) h
  | inr (q, e) ↦ rw (e, close_socket_at) (λ c g. h c (get-remove_inv b c r w.network.sockets g))
]

close_Same :
    (a b : SocketAddrV6) (r : SocketRef) (w : World)
    → Alone a r w
    → b ≢ a
    → Same r w (close_socket_at b w).1
unfolding close_socket_at close
close_Same a b r w h n = elim (Option-cases (Map.get b w.network.sockets)) [
  | inl e ↦ rw (e, close_socket_at) refl
  | inr (q, e) ↦
      let other : q ≢ r = λ p. n (h b (e ∙ ap (λ x. some x) p)) in
      rw (e, close_socket_at) (ground arith)
]

close_all_Same :
    (ls : List LocalAddress) (a : SocketAddrV6) (r : SocketRef) (bs : List SocketAddrV6) (w : World)
    → is_current ls a ≡ true
    → All (λ b. is_current ls b ≡ false) bs
    → Alone a r w
    → Same r w (for_each close_socket_at bs w).1
unfolding for_each
close_all_Same ls a r [] w t h alone = refl
close_all_Same ls a r (b ∷ bs) w t h alone =
    close_all_Same ls a r bs (close_socket_at b w).1 t h.1 (close_Alone a b r w alone)
    ∙ close_Same a b r w alone (λ p. cc (ap (is_current ls) p, h.0))

-- What opening sockets leaves as it is.
record Older (r : SocketRef) (w v : World) : Type 0 where
  connections : Same r w v
  next_socket : w.next_socket ≤ v.next_socket
  trace : (e : Event) → Elem e w.trace → Elem e v.trace

module _ (env : Env) where
  open_Older :
      (r : SocketRef) (l : LocalAddress) (w : World)
      → r < w.next_socket
      → Older r w (open_or_warn env l w).1
  open_Older r l w h = elim (open_or_warn_cases env l w) [
    | inl e ↦ rw e (record { connections = refl; next_socket = omega arith; trace = λ e x. x })
    | inr (a, e) ↦
        rw e
          (record { connections = ground arith; next_socket = omega arith; trace = λ e x. there x })
  ]

  open_all_Older :
      (r : SocketRef) (ls : List LocalAddress) (w : World)
      → r < w.next_socket
      → Older r w (for_each (open_or_warn env) ls w).1
  unfolding for_each
  open_all_Older r [] w h = record {
    connections = refl;
    next_socket = omega arith;
    trace = λ e x. x;
  }
  open_all_Older r (l ∷ ls) w h =
      let o = open_Older r l w h in
      let p = open_all_Older r ls (open_or_warn env l w).1 (omega (arith, o.next_socket)) in
      record {
        connections = p.connections ∙ o.connections;
        next_socket = omega (arith, o.next_socket, p.next_socket);
        trace = λ e x. p.trace e (o.trace e x);
      }

-- A socket that stays: it is registered as before, with the connections that it had.
abbrev pub Stays : Option SocketRef → SocketAddrV6 → World → World → Type 0
Stays none a w v = Unit {0}
Stays (some r) a w v =
    (Map.get a v.network.sockets ≡ some r) × ((v.store r).connections ≡ (w.store r).connections)

-- A socket that ends: it has no connection, and its UDP socket was told to close.
abbrev pub Ends : Option SocketRef → World → Type 0
Ends none v = Unit {0}
Ends (some r) v = ((v.store r).connections ≡ []) × Elem (io_closed r) v.trace

close_next :
    (r : SocketRef) (b : SocketAddrV6) (w : World)
    → r < w.next_socket
    → r < (close_socket_at b w).1.next_socket
unfolding close_socket_at close
close_next r b w h = elim (Option-cases (Map.get b w.network.sockets)) [
  | inl e ↦ rw (e, close_socket_at) h
  | inr (q, e) ↦ rw (e, close_socket_at) h
]

module _ (env : Env) (pack : MessagePack) (discovered : List LocalAddress) (w : World)
    (a : SocketAddrV6) where
  abbrev addresses : List LocalAddress
  addresses = map (with_port w.network.port) discovered

  abbrev closed : World
  closed = (close_stale_sockets addresses w).1

  abbrev opened : World
  opened = (for_each (open_or_warn env) (new_addresses closed.network.sockets addresses) closed).1

  abbrev after : World
  after = (open_new_sockets env pack (ok discovered) w).1

  later : (r : SocketRef) → r < w.next_socket → Older r closed after
  unfolding open_new_sockets close_stale_sockets
  later r h =
      let n =
        for_each_keeps (λ v. r < v.next_socket) close_socket_at
          (stale_addresses addresses (keys w.network.sockets)) (close_next r) w h in
      let o = open_all_Older env r (new_addresses closed.network.sockets addresses) closed n in
      let q = Does-publish_addresses (Quiet-IsClosed env) pack opened in
      record {
        connections = q.connections r ∙ o.connections;
        next_socket = rw q.next_socket o.next_socket;
        trace = λ e x. q.trace e (o.trace e x);
      }

  stays :
      (r : SocketRef)
      → IsValid w
      → is_current addresses a ≡ true
      → Map.get a w.network.sockets ≡ some r
      → (after.store r).connections ≡ (w.store r).connections
  unfolding close_stale_sockets
  stays r v t e =
      (later r (v.handle a r e)).connections
      ∙ close_all_Same addresses a r (stale_addresses addresses (keys w.network.sockets)) w t
          (stale_addresses-All addresses (keys w.network.sockets))
          (λ b g. sym (v.bound b r g) ∙ v.bound a r e)

  ends :
      (r : SocketRef)
      → IsValid w
      → is_current addresses a ≡ false
      → Map.get a w.network.sockets ≡ some r
      → ((after.store r).connections ≡ []) × Elem (io_closed r) after.trace
  ends r v f e =
      let o = later r (v.handle a r e) in
      let (c, d) = (close_stale_sockets-get addresses a w).1 r e f in
      (o.connections ∙ c, o.trace (io_closed r) d)

  -- In a valid state, after `open_new_sockets` with a list of addresses, given the configured port: a
  -- socket that was open at one of them is registered there as before and has the connections that it had;
  -- at any other address there is no socket, and one that was there has no connection left and its UDP
  -- socket was told to close.
  pub open_new_sockets-changed :
      IsValid w
      → if is_current (map (with_port w.network.port) discovered) a
        then Stays (Map.get a w.network.sockets) a w (open_new_sockets env pack (ok discovered) w).1
        else (Map.get a (open_new_sockets env pack (ok discovered) w).1.network.sockets ≡ none)
          × Ends (Map.get a w.network.sockets) (open_new_sockets env pack (ok discovered) w).1
  open_new_sockets-changed v =
      let kept = open_new_sockets-kept env pack discovered w a in
      elim (Bool-cases (is_current addresses a)) [
        | inl t ↦
            let k = rw t at kept in
            rw t (elim (Option-cases (Map.get a w.network.sockets)) [
              | inl e ↦ rw e tt
              | inr (r, e) ↦ let k' = rw e at k in rw e (k', stays r v t e)
            ])
        | inr f ↦
            let k = rw f at kept in
            rw f (
              k,
              elim (Option-cases (Map.get a w.network.sockets)) [
                | inl e ↦ rw e tt
                | inr (r, e) ↦ rw e (ends r v f e)
              ],
            )
      ]
