-- ===== src/Io/Socket/Registration.antt =====
-- When a remote address gets a connection: at its first datagram, and never after its channel closed.
use uip.Base.{
  ℕ, suc, ◌≡◌, ◌≢◌, refl, sym, ap, ◌∙◌, List, [], ◌∷◌, Option, none, some, Bool, true, false, All,
  arith, Option-cases, Bool-cases, inl, inr,
}
use uip.Base.Map
use mathlib.Core.Path.{subst}
use uip.Base.Map.{get-insert, get-insert_self}
use uip.Data.Address.{SocketAddr, socket_addr_key, SocketAddr-discrete}
use uip.Io.Socket.{
  Channel, Connection, Queued, Driver, Env, forward_or_new_connection, read_task, Received,
  datagram, failed, closed, Stopped,
}

-- An open channel `c` of `remote` takes the datagram; `put` is the driver after it.
abbrev put : List ℕ → SocketAddr → Channel → Driver → Driver
put buf remote c d = record d {
  socket = record d.socket { connections = Map.insert remote c d.socket.connections };
  queued = record { channel = c; remote = remote; bytes = buf } ∷ d.queued;
}

module _ (send_ok : Env) (remote : SocketAddr)
    (all_ok : (c : Channel) (q : List Queued) → send_ok c q ≡ true) where
  forward_known :
      (buf : List ℕ) (c : Channel) (d : Driver)
      → Map.get remote d.socket.connections ≡ some c
      → forward_or_new_connection send_ok buf remote d ≡ (none, put buf remote c d)
  unfolding forward_or_new_connection
  forward_known buf c d e = rw (e, forward_or_new_connection) (rw (all_ok c d.queued))

  forward_new :
      (buf : List ℕ) (d : Driver)
      → Map.get remote d.socket.connections ≡ none
      → forward_or_new_connection send_ok buf remote d ≡ (
        some (record {
          incoming = d.fresh;
          local_addr = d.socket.upd_address;
          remote_addr = remote;
        }),
        put buf remote d.fresh (record d { fresh = suc d.fresh }),
      )
  unfolding forward_or_new_connection
  forward_new buf d e = rw (e, forward_or_new_connection) (rw (all_ok d.fresh d.queued))

  -- While sends succeed, the first two datagrams of an address without a channel make one connection,
  -- to that address, and both are put on the channel that the connection reads, in their order.
  pub forward_twice :
      (b₁ b₂ : List ℕ) (d : Driver)
      → Map.get remote d.socket.connections ≡ none
      → (conn : Connection) × (d₁ : Driver) × (d₂ : Driver) × (forward_or_new_connection send_ok b₁
            remote d
          ≡ (some conn, d₁))
        × (forward_or_new_connection send_ok b₂ remote d₁ ≡ (none, d₂))
        × (conn.remote_addr ≡ remote)
        × (d₂.queued
            ≡ record { channel = conn.incoming; remote = remote; bytes = b₂ }
              ∷ record { channel = conn.incoming; remote = remote; bytes = b₁ }
              ∷ d.queued)
  forward_twice b₁ b₂ d unknown =
      let d₁ = put b₁ remote d.fresh (record d { fresh = suc d.fresh }) in
      (
        record { incoming = d.fresh; local_addr = d.socket.upd_address; remote_addr = remote },
        d₁,
        put b₂ remote d.fresh d₁,
        forward_new b₁ d unknown,
        forward_known b₂ d.fresh d₁ (get-insert_self remote d.fresh d.socket.connections),
        refl,
        refl,
      )

-- The channel `c` of `remote` is closed for good.
module _ (send_ok : Env) (accept : Connection → List Queued → Bool) (remote : SocketAddr)
    (c : Channel) (dead : (q : List Queued) → send_ok c q ≡ false) where
  same_remote :
      (buf : List ℕ) (d : Driver)
      → Map.get remote d.socket.connections ≡ some c
      → forward_or_new_connection send_ok buf remote d ≡ (none, d)
  unfolding forward_or_new_connection
  same_remote buf d e = ground (arith, dead d.queued)

  other_remote :
      (buf : List ℕ) (a : SocketAddr) (d : Driver)
      → a ≢ remote
      → Map.get remote (forward_or_new_connection send_ok buf a d).1.socket.connections
        ≡ Map.get remote d.socket.connections
  unfolding forward_or_new_connection
  other_remote buf a d h = elim (Option-cases (Map.get a d.socket.connections)) [
    | inl e ↦ ground (arith, get-insert a remote d.fresh d.socket.connections)
    | inr (k, e) ↦ ground (arith, get-insert a remote k d.socket.connections)
  ]

  other_connection :
      (buf : List ℕ) (a : SocketAddr) (d : Driver) (conn : Connection)
      → (forward_or_new_connection send_ok buf a d).0 ≡ some conn
      → conn.remote_addr ≡ a
  unfolding forward_or_new_connection
  other_connection buf a d conn e = ground arith

  -- One round of the loop for a datagram of another address.
  abbrev IsDead : Stopped × List Connection × Driver → Type 0
  IsDead r =
      All (λ conn. conn.remote_addr ≢ remote) r.1 × (Map.get remote r.2.socket.connections ≡ some c)

  same_round :
      (bytes : List ℕ) (rest : List Received) (d : Driver)
      → Map.get remote d.socket.connections ≡ some c
      → IsDead (read_task send_ok accept rest d)
      → IsDead (read_task send_ok accept (datagram bytes remote ∷ rest) d)
  unfolding read_task
  same_round bytes rest d e ih =
      rw (ap (λ r. r.0) (same_remote bytes d e), read_task)
        (rw (ap (λ r. r.1) (same_remote bytes d e)) ih)

  round :
      (bytes : List ℕ) (a : SocketAddr) (rest : List Received) (d : Driver)
      → a ≢ remote
      → Map.get remote d.socket.connections ≡ some c
      → IsDead (read_task send_ok accept rest (forward_or_new_connection send_ok bytes a d).1)
      → IsDead (read_task send_ok accept (datagram bytes a ∷ rest) d)
  unfolding read_task
  round bytes a rest d n e ih = go (forward_or_new_connection send_ok bytes a d).0 refl
    where
      stay :
          Map.get remote (forward_or_new_connection send_ok bytes a d).1.socket.connections ≡ some c
      stay = other_remote bytes a d n ∙ e

      go :
          (o : Option Connection)
          → (forward_or_new_connection send_ok bytes a d).0 ≡ o
          → IsDead (read_task send_ok accept (datagram bytes a ∷ rest) d)
      go none p = rw (p, read_task) ih
      go (some conn) p =
          elim (Bool-cases (accept conn (forward_or_new_connection send_ok bytes a d).1.queued)) [
            | inl t ↦
                rw (p, read_task)
                  (rw t ((λ z. n (sym (other_connection bytes a d conn p) ∙ z), ih.0), ih.1))
            | inr f ↦ rw (p, read_task) (rw f (tt, stay))
          ]

  -- If the channel that is registered for an address is closed for good, the read task never
  -- offers a connection for that address again, whatever it receives, and keeps the closed channel
  -- registered.
  pub read_task_dead :
      (received : List Received) (d : Driver)
      → Map.get remote d.socket.connections ≡ some c
      → All (λ conn. conn.remote_addr ≢ remote) (read_task send_ok accept received d).1
        × (Map.get remote (read_task send_ok accept received d).2.socket.connections ≡ some c)
  unfolding read_task
  read_task_dead [] d e = (tt, e)
  read_task_dead (failed ∷ rest) d e = (tt, e)
  read_task_dead (closed ∷ rest) d e = (tt, e)
  read_task_dead (datagram bytes a ∷ rest) d e = elim (SocketAddr-discrete a remote) [
    | yes p ↦
        subst (λ x. IsDead (read_task send_ok accept (datagram bytes x ∷ rest) d)) (sym p)
          (same_round bytes rest d e (read_task_dead rest d e))
    | no n ↦ round bytes a rest d n e (read_task_dead rest _ (other_remote bytes a d n ∙ e))
  ]
