-- ===== src/Network/Sockets/Stale.antt =====
-- `close_stale_sockets` leaves exactly the sockets at current addresses.
use uip.Base.{
  ◌≡◌, ◌≢◌, refl, ap, ◌∙◌, List, [], ◌∷◌, none, some, true, false, arith, if◌then◌else◌, Elem, here,
  there, All, not-Elem-nil, Option-cases, Bool-cases, inl, inr,
}
use uip.Base.Map
use uip.Base.Map.{eq?, get-remove, keys, Map}
use uip.Data.Address.{SocketAddrV6, socket_addr_v6_key, SocketAddrV6-discrete}
use uip.Discovery.{LocalAddress}
use uip.Network.Sockets.{is_current, stale_addresses, close_socket_at, close_stale_sockets}
use uip.Transport.Socket.{close}
use uip.World.{io_closed, World, SocketRef, for_each, for_each_keeps}

pub stale_addresses-All :
    (ls : List LocalAddress) (ks : List SocketAddrV6)
    → All (λ a. is_current ls a ≡ false) (stale_addresses ls ks)
unfolding stale_addresses
stale_addresses-All ls [] = tt
stale_addresses-All ls (a ∷ more) = elim (Bool-cases (is_current ls a)) [
  | inl t ↦ rw t (stale_addresses-All ls more)
  | inr f ↦ rw f (f, stale_addresses-All ls more)
]

stale_addresses-Elem :
    (ls : List LocalAddress) (ks : List SocketAddrV6) (a : SocketAddrV6)
    → Elem a ks
    → is_current ls a ≡ false
    → Elem a (stale_addresses ls ks)
unfolding stale_addresses
stale_addresses-Elem ls [] a e f = absurd (not-Elem-nil e)
stale_addresses-Elem ls (a ∷ more) _ here f = rw f here
stale_addresses-Elem ls (b ∷ more) a (there e) f =
    let found = stale_addresses-Elem ls more a e f in
    elim (Bool-cases (is_current ls b)) [
      | inl t ↦ rw (t, stale_addresses) found
      | inr n ↦ rw (n, stale_addresses) (there found)
    ]

pub keys-Elem :
    (a : SocketAddrV6) (m : Map SocketAddrV6 SocketRef) (r : SocketRef)
    → Map.get a m ≡ some r
    → Elem a (keys m)
unfolding Map.get
keys-Elem a [] r e = cc
keys-Elem a ((b, q) ∷ m) r e = elim (SocketAddrV6-discrete b a) [
  | yes p ↦ rw p here
  | no n ↦ there (keys-Elem a m r (ground arith))
]

-- One round, at another address and at the address itself.
close_other :
    (a b : SocketAddrV6) (w : World)
    → b ≢ a
    → Map.get a (close_socket_at b w).1.network.sockets ≡ Map.get a w.network.sockets
unfolding close_socket_at close
close_other a b w n = elim (Option-cases (Map.get b w.network.sockets)) [
  | inl e ↦ rw (e, close_socket_at)
  | inr (r, e) ↦ rw (e, close_socket_at) (ground (arith, get-remove b a w.network.sockets))
]

-- The socket is gone: its address is free, it has no connection, and its UDP socket was told to close.
abbrev Gone : SocketAddrV6 → SocketRef → World → Type 0
Gone a r w =
    (Map.get a w.network.sockets ≡ none)
    × ((w.store r).connections ≡ [])
    × Elem (io_closed r) w.trace

close_self :
    (a : SocketAddrV6) (r : SocketRef) (w : World)
    → Map.get a w.network.sockets ≡ some r
    → Gone a r (close_socket_at a w).1
unfolding close_socket_at close
close_self a r w e =
    rw (e, close_socket_at) (ground (arith, get-remove a a w.network.sockets), ground arith, here)

close_keeps :
    (a : SocketAddrV6) (r : SocketRef) (b : SocketAddrV6) (w : World)
    → Gone a r w
    → Gone a r (close_socket_at b w).1
unfolding close_socket_at close
close_keeps a r b w (e, c, d) = elim (Option-cases (Map.get b w.network.sockets)) [
  | inl p ↦ rw (p, close_socket_at) (e, c, d)
  | inr (q, p) ↦
      rw (p, close_socket_at)
        (ground (arith, get-remove b a w.network.sockets), ground arith, there d)
]

loop_keeps_current :
    (ls : List LocalAddress) (a : SocketAddrV6) (bs : List SocketAddrV6) (w : World)
    → is_current ls a ≡ true
    → All (λ b. is_current ls b ≡ false) bs
    → Map.get a (for_each close_socket_at bs w).1.network.sockets ≡ Map.get a w.network.sockets
unfolding for_each
loop_keeps_current ls a [] w t h = refl
loop_keeps_current ls a (b ∷ bs) w t h =
    loop_keeps_current ls a bs (close_socket_at b w).1 t h.1
    ∙ close_other a b w (λ p. cc (ap (is_current ls) p, h.0))

loop_closes :
    (a : SocketAddrV6) (r : SocketRef) (bs : List SocketAddrV6) (w : World)
    → Elem a bs
    → Map.get a w.network.sockets ≡ some r
    → Gone a r (for_each close_socket_at bs w).1
unfolding for_each
loop_closes a r [] w m e = absurd (not-Elem-nil m)
loop_closes a r (b ∷ bs) w here e =
    for_each_keeps (Gone a r) close_socket_at bs (close_keeps a r) (close_socket_at a w).1
      (close_self a r w e)
loop_closes a r (b ∷ bs) w (there m) e = elim (SocketAddrV6-discrete b a) [
  | yes p ↦
      for_each_keeps (Gone a r) close_socket_at bs (close_keeps a r) (close_socket_at b w).1
        (rw p (close_self a r w e))
  | no n ↦ loop_closes a r bs (close_socket_at b w).1 m (close_other a b w n ∙ e)
]

loop_none :
    (a : SocketAddrV6) (bs : List SocketAddrV6) (w : World)
    → Map.get a w.network.sockets ≡ none
    → Map.get a (for_each close_socket_at bs w).1.network.sockets ≡ none
loop_none a bs w e =
    for_each_keeps (λ v. Map.get a v.network.sockets ≡ none) close_socket_at bs still w e
  where
    still :
        (b : SocketAddrV6) (v : World)
        → Map.get a v.network.sockets ≡ none
        → Map.get a (close_socket_at b v).1.network.sockets ≡ none
    still b v e = elim (SocketAddrV6-discrete b a) [
      | yes p ↦ rw p (unfold close_socket_at in rw (e, close_socket_at) e)
      | no n ↦ close_other a b v n ∙ e
    ]

-- After `close_stale_sockets` a socket is at an address exactly if it was before and the address is
-- current; a socket that was at another address has no connection left and is told to close.
pub close_stale_sockets-get :
    (ls : List LocalAddress) (a : SocketAddrV6) (w : World)
    → let w' = (close_stale_sockets ls w).1 in
      (Map.get a w'.network.sockets
        ≡ (if is_current ls a then Map.get a w.network.sockets else none))
      × ((r : SocketRef)
          → Map.get a w.network.sockets ≡ some r
          → is_current ls a ≡ false
          → ((w'.store r).connections ≡ []) × Elem (io_closed r) w'.trace)
unfolding close_stale_sockets
close_stale_sockets-get ls a w = (found, λ r e f. let (_, c, d) = gone r e f in (c, d))
  where
    stale : List SocketAddrV6
    stale = stale_addresses ls (keys w.network.sockets)

    gone :
        (r : SocketRef)
        → Map.get a w.network.sockets ≡ some r
        → is_current ls a ≡ false
        → Gone a r (for_each close_socket_at stale w).1
    gone r e f =
        loop_closes a r stale w
          (stale_addresses-Elem ls (keys w.network.sockets) a (keys-Elem a w.network.sockets r e) f)
          e

    found :
        Map.get a (for_each close_socket_at stale w).1.network.sockets
        ≡ (if is_current ls a then Map.get a w.network.sockets else none)
    found = elim (Bool-cases (is_current ls a)) [
      | inl t ↦
          rw t (loop_keeps_current ls a stale w t (stale_addresses-All ls (keys w.network.sockets)))
      | inr f ↦ rw f (elim (Option-cases (Map.get a w.network.sockets)) [
        | inl e ↦ loop_none a stale w e
        | inr (r, e) ↦ (gone r e f).0
      ])
    ]
