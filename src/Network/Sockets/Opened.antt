-- ===== src/Network/Sockets/Opened.antt =====
-- `open_new_sockets` keeps the open sockets in step with the addresses of the host.
use uip.Base.{
  ◌≡◌, ◌≢◌, refl, sym, ap, ◌∙◌, List, [], ◌∷◌, map, Option, none, some, Bool, true, false, ok,
  arith, if◌then◌else◌, Option-cases, Bool-cases, inl, inr, ◌⊎◌,
}
use uip.Base.Map
use uip.Base.Map.{eq?, get-insert, keys, values, Map}
use uip.Data.Address.{SocketAddr, SocketAddrV6, socket_addr_v6_key, SocketAddrV6-discrete}
use uip.Discovery.{LocalAddress}
use uip.Protocol.{MessagePack}
use uip.Network.Quiet.{Quiet-IsClosed}
use uip.Network.Sockets.{
  is_current, with_port, new_addresses, close_stale_sockets, open_or_warn, open_new_sockets,
}
use uip.Network.Sockets.Stale.{close_stale_sockets-get}
use uip.Network.Pieces.Handlers.{Does-publish_addresses}
use uip.Network.Sockets.Opening.{open_or_warn_ok, open_or_warn_cases}
use uip.World.{World, Env, Trace, SocketRef, for_each}

-- `UdpSocket::bind` and the TLS acceptor never fail.
pub record AllBind (env : Env) : Type 0 where
  pub bound : (l : LocalAddress) (t : Trace) → (a : SocketAddr) × (env.udp_bind l t ≡ ok a)
  pub accepting : (t : Trace) → env.acceptor t ≡ true

-- What is there stays; nothing is said where nothing is there.
abbrev pub Keeps : Option SocketRef → Option SocketRef → Type 0
Keeps none after = Unit {0}
Keeps (some r) after = after ≡ some r

abbrev pub is_some : Option SocketRef → Bool
is_some none = false
is_some (some r) = true

module _ (env : Env) where
  -- What opening a socket does to the map.
  open_sockets :
      (l : LocalAddress) (w : World)
      → ((open_or_warn env l w).1.network.sockets ≡ w.network.sockets)
        ⊎ ((r : SocketRef) × ((open_or_warn env l w).1.network.sockets
              ≡ Map.insert l.address r w.network.sockets))
  open_sockets l w = elim (open_or_warn_cases env l w) [
    | inl e ↦ inl (ap (λ v. v.network.sockets) e)
    | inr (a, e) ↦ inr (w.next_socket, ap (λ v. v.network.sockets) e)
  ]

  pub open_succeeds :
      (l : LocalAddress) (w : World)
      → AllBind env
      → (r : SocketRef) × ((open_or_warn env l w).1.network.sockets
          ≡ Map.insert l.address r w.network.sockets)
  open_succeeds l w b =
      let (a, e) = b.bound l w.trace in
      (
        w.next_socket,
        ap (λ v. v.network.sockets) (open_or_warn_ok env l w a e (b.accepting w.trace)),
      )

  open_other :
      (l : LocalAddress) (a : SocketAddrV6) (w : World)
      → l.address ≢ a
      → Map.get a (open_or_warn env l w).1.network.sockets ≡ Map.get a w.network.sockets
  open_other l a w n = elim (open_sockets l w) [
    | inl e ↦ rw e
    | inr (r, e) ↦ rw e (ground (arith, get-insert l.address a r w.network.sockets))
  ]

  pub open_found :
      (l : LocalAddress) (a : SocketAddrV6) (w : World) (r : SocketRef)
      → Map.get a (open_or_warn env l w).1.network.sockets ≡ some r
      → (l.address ≡ a) ⊎ (Map.get a w.network.sockets ≡ some r)
  open_found l a w r e = elim (SocketAddrV6-discrete l.address a) [
    | yes p ↦ inl p
    | no n ↦ inr (sym (open_other l a w n) ∙ e)
  ]

  -- Every socket found after the loop was there, or is at an address of the list.
  loop_found :
      (ls : List LocalAddress) (a : SocketAddrV6) (w : World) (r : SocketRef)
      → Map.get a (for_each (open_or_warn env) ls w).1.network.sockets ≡ some r
      → (is_current ls a ≡ true) ⊎ (Map.get a w.network.sockets ≡ some r)
  unfolding for_each is_current
  loop_found [] a w r e = inr e
  loop_found (l ∷ ls) a w r e = elim (loop_found ls a (open_or_warn env l w).1 r e) [
    | inl c ↦ inl (ground arith)
    | inr f ↦ elim (open_found l a w r f) [ inl p ↦ inl (ground arith) | inr g ↦ inr g ]
  ]

  loop_keeps :
      (ls : List LocalAddress) (a : SocketAddrV6) (w : World)
      → is_current ls a ≡ false
      → Map.get a (for_each (open_or_warn env) ls w).1.network.sockets ≡ Map.get a w.network.sockets
  unfolding for_each is_current
  loop_keeps [] a w f = refl
  loop_keeps (l ∷ ls) a w f =
      loop_keeps ls a (open_or_warn env l w).1 (ground arith) ∙ open_other l a w (ground arith)

  pub open_keeps_some :
      (l : LocalAddress) (a : SocketAddrV6) (w : World)
      → ((r : SocketRef) × (Map.get a w.network.sockets ≡ some r))
      → (r : SocketRef) × (Map.get a (open_or_warn env l w).1.network.sockets ≡ some r)
  open_keeps_some l a w (r, e) = elim (open_sockets l w) [
    | inl p ↦ (r, rw p e)
    | inr (q, p) ↦ elim (SocketAddrV6-discrete l.address a) [
      | yes s ↦ (q, rw p (ground (arith, get-insert l.address a q w.network.sockets)))
      | no n ↦ (r, open_other l a w n ∙ e)
    ]
  ]

  loop_keeps_some :
      (ls : List LocalAddress) (a : SocketAddrV6) (w : World)
      → ((r : SocketRef) × (Map.get a w.network.sockets ≡ some r))
      → (r : SocketRef) × (Map.get a (for_each (open_or_warn env) ls w).1.network.sockets ≡ some r)
  unfolding for_each
  loop_keeps_some [] a w h = h
  loop_keeps_some (l ∷ ls) a w h =
      loop_keeps_some ls a (open_or_warn env l w).1 (open_keeps_some l a w h)

  loop_opens :
      (ls : List LocalAddress) (a : SocketAddrV6) (w : World)
      → AllBind env
      → is_current ls a ≡ true
      → (r : SocketRef) × (Map.get a (for_each (open_or_warn env) ls w).1.network.sockets ≡ some r)
  unfolding for_each is_current
  loop_opens [] a w b t = absurd (ground arith)
  loop_opens (l ∷ ls) a w b t = elim (SocketAddrV6-discrete l.address a) [
    | yes p ↦
        let (r, e) = open_succeeds l w b in
        loop_keeps_some ls a (open_or_warn env l w).1
          (r, rw e (ground (arith, get-insert l.address a r w.network.sockets)))
    | no n ↦ loop_opens ls a (open_or_warn env l w).1 b (ground arith)
  ]

  -- An address that has a socket is not among the new ones, and one that has none is among them if it
  -- is current.
  pub new_addresses-current :
      (m : Map SocketAddrV6 SocketRef) (ls : List LocalAddress) (a : SocketAddrV6)
      → is_current (new_addresses m ls) a
        ≡ elim (Map.get a m) [ none ↦ is_current ls a | some _ ↦ false ]
  unfolding new_addresses is_current
  new_addresses-current m [] a = ground arith
  new_addresses-current m (l ∷ ls) a = ground (arith, new_addresses-current m ls a)

  module _ (pack : MessagePack) (discovered : List LocalAddress) (w : World)
      (a : SocketAddrV6) where
    abbrev addresses : List LocalAddress
    addresses = map (with_port w.network.port) discovered

    abbrev closed : World
    closed = (close_stale_sockets addresses w).1

    abbrev opened : World
    opened = (for_each (open_or_warn env) (new_addresses closed.network.sockets addresses) closed).1

    sockets-open_new_sockets :
        (open_new_sockets env pack (ok discovered) w).1.network.sockets ≡ opened.network.sockets
    unfolding open_new_sockets
    sockets-open_new_sockets =
        ap (λ n. n.sockets) (Does-publish_addresses (Quiet-IsClosed env) pack opened).network

    opened_sockets :
        let after = (open_new_sockets env pack (ok discovered) w).1.network.sockets in
        ((r : SocketRef) → Map.get a after ≡ some r → is_current addresses a ≡ true)
        × ((r : SocketRef)
            → Map.get a w.network.sockets ≡ some r
            → is_current addresses a ≡ true
            → Map.get a after ≡ some r)
        × (AllBind env
            → is_current addresses a ≡ true
            → (r : SocketRef) × (Map.get a after ≡ some r))
    opened_sockets = rw sockets-open_new_sockets (only, kept, all)
      where
        left :
            Map.get a closed.network.sockets
            ≡ (if is_current addresses a then Map.get a w.network.sockets else none)
        left = (close_stale_sockets-get addresses a w).0

        fresh :
            is_current (new_addresses closed.network.sockets addresses) a
            ≡ elim (Map.get a closed.network.sockets) [
              | none ↦ is_current addresses a
              | some _ ↦ false
            ]
        fresh = new_addresses-current closed.network.sockets addresses a

        only :
            (r : SocketRef)
            → Map.get a opened.network.sockets ≡ some r
            → is_current addresses a ≡ true
        only r e = elim (loop_found (new_addresses closed.network.sockets addresses) a closed r e) [
          | inl c ↦ ground (arith, left, fresh, c)
          | inr f ↦ ground (arith, left, f)
        ]

        kept :
            (r : SocketRef)
            → Map.get a w.network.sockets ≡ some r
            → is_current addresses a ≡ true
            → Map.get a opened.network.sockets ≡ some r
        kept r e t =
            let was : Map.get a closed.network.sockets ≡ some r = ground (arith, left, e, t) in
            loop_keeps (new_addresses closed.network.sockets addresses) a closed
              (ground (arith, fresh, was))
            ∙ was

        all :
            AllBind env
            → is_current addresses a ≡ true
            → (r : SocketRef) × (Map.get a opened.network.sockets ≡ some r)
        all b t = elim (Option-cases (Map.get a closed.network.sockets)) [
          | inl e ↦
              loop_opens (new_addresses closed.network.sockets addresses) a closed b
                (ground (arith, fresh, e, t))
          | inr (r, e) ↦
              loop_keeps_some (new_addresses closed.network.sockets addresses) a closed (r, e)
        ]

    -- After `open_new_sockets` with a list of addresses, given the configured port, a socket that was
    -- open at one of them is open there as before, and one at any other address is no longer.
    pub open_new_sockets-kept :
        let after = (open_new_sockets env pack (ok discovered) w).1.network.sockets in
        if is_current addresses a
        then Keeps (Map.get a w.network.sockets) (Map.get a after)
        else Map.get a after ≡ none
    open_new_sockets-kept =
        let after = (open_new_sockets env pack (ok discovered) w).1.network.sockets in
        elim (Bool-cases (is_current addresses a)) [
          | inl t ↦ rw t (elim (Option-cases (Map.get a w.network.sockets)) [
            | inl e ↦ rw e tt
            | inr (r, e) ↦ rw e (opened_sockets.1 r e t)
          ])
          | inr f ↦ rw f (elim (Option-cases (Map.get a after)) [
            | inl e ↦ e
            | inr (r, e) ↦ absurd (ground (arith, opened_sockets.0 r e, f))
          ])
        ]

    -- If binding and the TLS acceptor never fail, then after `open_new_sockets` with a list of
    -- addresses there is a socket at exactly these, given the configured port.
    pub open_new_sockets-get :
        AllBind env
        → let after = (open_new_sockets env pack (ok discovered) w).1.network.sockets in
          is_some (Map.get a after) ≡ is_current addresses a
    open_new_sockets-get b =
        let after = (open_new_sockets env pack (ok discovered) w).1.network.sockets in
        elim (Bool-cases (is_current addresses a)) [
          | inl t ↦ let (r, e) = opened_sockets.2 b t in rw (e, t)
          | inr f ↦ elim (Option-cases (Map.get a after)) [
            | inl e ↦ rw (e, f)
            | inr (r, e) ↦ absurd (ground (arith, opened_sockets.0 r e, f))
          ]
        ]
