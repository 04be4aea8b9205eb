-- ===== src/Transport/Socket/Registry.antt =====
-- Under which identifier a transport socket registers a connection, and what it does not check.
use uip.Base.{
  ◌≡◌, refl, ◌∷◌, Option, none, some, Bool, true, false, ok, arith, ite, ℕ_discrete, ◌⊎◌, inl, inr,
}
use uip.Base.Map
use uip.Base.Map.{eq?, get-insert}
use uip.Data.Identifier.{Identifier, identifier_key}
use uip.Data.Address.{SocketAddrV6, v6}
use uip.Transport.Socket.{
  accept_connection, from_tls_stream, get_connection, close, open_connection, io_connect, handshake,
}
use uip.World.{World, Env, Connection, SocketRef, tasks_spawned}

-- After a session that was set up is accepted with a certificate of `id`, that socket answers `id` with
-- the connection that was spawned as `id`'s, and any other identifier, or any other socket, as before.
pub get_connection-accept_connection :
    (r q : SocketRef) (id j : Identifier) (w : World)
    → let w' = (accept_connection r true (some id) w).1 in
      (c : Connection) × (w'.trace ≡ tasks_spawned c id ∷ w.trace)
      × ((get_connection q j w').0
          ≡ ite
              (ℕ_discrete q r)
              (ite (eq? id j) (some c) (get_connection q j w).0)
              (get_connection q j w).0)
unfolding accept_connection get_connection
get_connection-accept_connection r q id j w = (
  record { sink = w.next_channel },
  refl,
  ground (arith, get-insert id j (record { sink = w.next_channel }) (w.store r).connections),
)

-- Without a session, or without an identifier from a certificate, nothing is registered or spawned.
pub accept_connection_refused :
    (r : SocketRef) (session : Bool) (certificate : Option Identifier) (w : World)
    → (session ≡ false) ⊎ (certificate ≡ none)
    → (accept_connection r session certificate w).1 ≡ w
unfolding accept_connection
accept_connection_refused r false certificate w h = refl
accept_connection_refused r true none w h = refl
accept_connection_refused r true (some id) w (inl e) = cc
accept_connection_refused r true (some id) w (inr e) = cc

-- After `close` the socket answers every identifier with no connection, and other sockets as before.
pub get_connection-close :
    (r q : SocketRef) (id : Identifier) (w : World)
    → (get_connection q id (close r w).1).0 ≡ ite (ℕ_discrete q r) none (get_connection q id w).0
unfolding get_connection close Map.get
get_connection-close r q id w = ground arith

-- If TLS can be set up and the handshake succeeds, `open_connection` succeeds with whatever
-- certificate the other side presents, also one of another identifier, and spawns the connection's
-- tasks as those of `identifier`.
pub open_connection_unchecked :
    (env : Env) (r : SocketRef) (identifier certificate : Identifier) (address : SocketAddrV6)
    (w : World)
    → env.configure w.trace ≡ true
    → env.into_ssl identifier w.trace ≡ none
    → env.ssl_stream w.trace ≡ none
    → env.handshake (v6 address) w.trace ≡ some certificate
    → (c : Connection) × (w' : World) × (open_connection env r identifier address w ≡ (ok c, w'))
      × (w'.trace ≡ tasks_spawned c identifier ∷ w.trace)
unfolding open_connection
open_connection_unchecked env r identifier certificate address w a b c d =
    let w₁ = (io_connect r (v6 address) w).1 in
    (
      record { sink = w₁.next_channel },
      (from_tls_stream identifier w₁).1,
      rw (a, open_connection) (rw (b, open_connection) (rw (c, handshake) (rw (d, handshake)))),
      refl,
    )
