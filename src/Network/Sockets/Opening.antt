-- ===== src/Network/Sockets/Opening.antt =====
-- What opening one socket changes.
use uip.Base.{
  suc, ◌≡◌, refl, ◌∷◌, true, Result, ok, err, ErrorKind, invalid_input, Bool-cases, inl, inr, ◌⊎◌,
  ap,
}
use uip.Base.Map
use uip.Data.Address.{SocketAddr, socket_addr_v6_key}
use uip.Discovery.{LocalAddress}
use uip.Network.Sockets.{open_socket, open_or_warn}
use uip.Transport.Socket.{new, open_on}
use uip.World.{World, Env, update, socket_spawned}

-- A new socket at the address, under the first unused reference.
abbrev pub with_socket : LocalAddress → SocketAddr → World → World
with_socket l upd w = record w {
  network = record w.network { sockets = Map.insert l.address w.next_socket w.network.sockets };
  store = update w.store w.next_socket (new l upd);
  next_socket = suc w.next_socket;
  trace = socket_spawned w.next_socket ∷ w.trace;
}

module _ (env : Env) (l : LocalAddress) (w : World) where
  pub open_or_warn_ok :
      (a : SocketAddr)
      → env.udp_bind l w.trace ≡ ok a
      → env.acceptor w.trace ≡ true
      → (open_or_warn env l w).1 ≡ with_socket l a w
  unfolding open_or_warn open_socket
  open_or_warn_ok a e t = rw (ap (λ r. r.0) made, open_socket) (rw (ap (λ r. r.1) made))
    where
      made : open_on env l w ≡ (
        ok w.next_socket,
        record w {
          store = update w.store w.next_socket (new l a);
          next_socket = suc w.next_socket;
        },
      )
      made = unfold open_on in rw (e, open_on) (rw t)

  unchanged : (k : ErrorKind) → open_on env l w ≡ (err k, w) → (open_or_warn env l w).1 ≡ w
  unfolding open_or_warn open_socket
  unchanged k e = rw (ap (λ r. r.0) e, open_socket) (rw (ap (λ r. r.1) e))

  -- Either nothing changed, or there is a new socket at the address.
  pub open_or_warn_cases :
      ((open_or_warn env l w).1 ≡ w)
      ⊎ ((a : SocketAddr) × ((open_or_warn env l w).1 ≡ with_socket l a w))
  unfolding open_on
  open_or_warn_cases = go (env.udp_bind l w.trace) refl
    where
      go :
          (b : Result SocketAddr ErrorKind)
          → env.udp_bind l w.trace ≡ b
          → ((open_or_warn env l w).1 ≡ w)
            ⊎ ((a : SocketAddr) × ((open_or_warn env l w).1 ≡ with_socket l a w))
      go (err k) e = inl (unchanged k (rw (e, open_on)))
      go (ok a) e = elim (Bool-cases (env.acceptor w.trace)) [
        | inl t ↦ inr (a, open_or_warn_ok a e t)
        | inr f ↦ inl (unchanged invalid_input (rw (e, open_on) (rw f)))
      ]
