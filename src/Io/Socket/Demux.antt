-- ===== src/Io/Socket/Demux.antt =====
-- Each channel carries the datagrams of one remote address.
pub mod Connections
use uip.Base.{
  ℕ, suc, ◌<◌, ◌≡◌, sym, List, [], ◌∷◌, none, some, All, arith, Option-cases, Bool-cases, inl, inr,
}
use uip.Base.Map
use uip.Base.Map.{get-insert, get-insert_self}
use uip.Data.Address.{SocketAddr, socket_addr_key}
use uip.Discovery.{LocalAddress}
use uip.Io.Socket.{
  Channel, Connection, Queued, Driver, Env, bind, connect, forward, forward_or_new_connection,
}

-- No two datagrams of different remote addresses are on one channel.
abbrev pub Separated : List Queued → Type 0
Separated [] = Unit
Separated (q ∷ qs) = All (λ p. p.channel ≡ q.channel → p.remote ≡ q.remote) qs × Separated qs

-- The driver is consistent: a channel belongs to at most one remote address, and what it carries is
-- from that address; channels in use are below the first unused one.
pub record IsConsistent (d : Driver) : Type 0 where
  pub below : (a : SocketAddr) (c : Channel) → Map.get a d.socket.connections ≡ some c → c < d.fresh
  pub apart :
      (a b : SocketAddr) (c : Channel)
      → Map.get a d.socket.connections ≡ some c
      → Map.get b d.socket.connections ≡ some c
      → a ≡ b
  pub used : All (λ q. q.channel < d.fresh) d.queued
  pub owner :
      All
        (λ q. (a : SocketAddr) → Map.get a d.socket.connections ≡ some q.channel → a ≡ q.remote)
        d.queued
  pub separated : Separated d.queued

pub All-map {ℓ κ} :
    {A : Type ℓ} {P Q : A → Type κ} (xs : List A) → ((x : A) → P x → Q x) → All P xs → All Q xs
All-map [] f h = tt
All-map (x ∷ xs) f h = (f x h.0, All-map xs f h.1)

All-map₂ {ℓ κ} :
    {A : Type ℓ} {P Q R : A → Type κ} (xs : List A)
    → ((x : A) → P x → Q x → R x)
    → All P xs
    → All Q xs
    → All R xs
All-map₂ [] f h g = tt
All-map₂ (x ∷ xs) f h g = (f x h.0 g.0, All-map₂ xs f h.1 g.1)

pub bind-IsConsistent : (addr : LocalAddress) (upd : SocketAddr) → IsConsistent (bind addr upd)
unfolding bind Map.get
bind-IsConsistent addr upd = record {
  below = λ a c e. cc;
  apart = λ a b c e f. cc;
  used = tt;
  owner = tt;
  separated = tt;
}

-- A fresh channel for an address.
module _ (d : Driver) (h : IsConsistent d) where
  pub connect-IsConsistent : (addr : SocketAddr) → IsConsistent (connect addr d).1
  unfolding connect
  connect-IsConsistent addr = record {
    below = λ a c e. ground (arith, get-insert addr a d.fresh d.socket.connections, h.below a c);
    apart = λ a b c e f. ground (
      arith,
      get-insert addr a d.fresh d.socket.connections,
      get-insert addr b d.fresh d.socket.connections,
      h.below a c,
      h.below b c,
      h.apart a b c,
    );
    used = All-map d.queued (λ q l. omega arith) h.used;
    owner =
        All-map₂ d.queued
          (λ q l o a e. ground (arith, get-insert addr a d.fresh d.socket.connections, o a, l))
          h.used h.owner;
    separated = h.separated;
  }

  -- Putting a datagram of `remote` on a channel that is used for no other address.
  deliver-IsConsistent :
      (buf : List ℕ) (remote : SocketAddr) (c : Channel)
      → c < d.fresh
      → ((a : SocketAddr) → Map.get a d.socket.connections ≡ some c → a ≡ remote)
      → All (λ q. q.channel ≡ c → q.remote ≡ remote) d.queued
      → IsConsistent (record d {
        socket = record d.socket { connections = Map.insert remote c d.socket.connections };
        queued = record { channel = c; remote = remote; bytes = buf } ∷ d.queued;
      })
  deliver-IsConsistent buf remote c fits own past = record {
    below = λ a b e. ground (arith, get-insert remote a c conns, h.below a b);
    apart = λ a b k e f. ground (
      arith,
      get-insert remote a c conns,
      get-insert remote b c conns,
      h.apart a b k,
      own a,
      own b,
    );
    used = (fits, h.used);
    owner = (
      λ a e. ground (arith, get-insert remote a c conns, own a),
      All-map₂ d.queued (λ q p o a e. ground (arith, get-insert remote a c conns, p, o a)) past
          h.owner,
    );
    separated = (past, h.separated);
  }
    where
      open d.socket use {connections as conns}

-- No remote address has the first unused channel, and nothing was put on it.
fresh-IsConsistent : (d : Driver) → IsConsistent d → IsConsistent (record d { fresh = suc d.fresh })
fresh-IsConsistent d h = record {
  below = λ a c e. let l = h.below a c e in omega arith;
  apart = h.apart;
  used = All-map d.queued (λ q l. omega arith) h.used;
  owner = h.owner;
  separated = h.separated;
}

module _ (send_ok : Env) (buf : List ℕ) (remote : SocketAddr) (d : Driver)
    (h : IsConsistent d) where
  known_step :
      (c : Channel)
      → Map.get remote d.socket.connections ≡ some c
      → IsConsistent (forward send_ok buf remote c none d).1
  unfolding forward
  known_step c e = elim (Bool-cases (send_ok c d.queued)) [
    | inl open_channel ↦ rw open_channel (
        deliver-IsConsistent d h buf remote c (h.below remote c e) (λ a g. h.apart a remote c g e)
          (All-map d.queued (λ q o p. sym (o remote (rw (sym p) at e))) h.owner))
    | inr gone ↦ rw gone h
  ]

  new_step :
      (conn : Connection)
      → IsConsistent
          (forward send_ok buf remote d.fresh (some conn) (record d { fresh = suc d.fresh })).1
  unfolding forward
  new_step conn = elim (Bool-cases (send_ok d.fresh d.queued)) [
    | inl open_channel ↦ rw open_channel (
        deliver-IsConsistent (record d { fresh = suc d.fresh }) (fresh-IsConsistent d h) buf remote
          d.fresh (omega arith) (λ a g. absurd (omega (arith, h.below a d.fresh g)))
          (All-map d.queued (λ q l p. absurd (omega arith)) h.used))
    | inr gone ↦ rw gone (fresh-IsConsistent d h)
  ]

  pub forward-IsConsistent : IsConsistent (forward_or_new_connection send_ok buf remote d).1
  unfolding forward_or_new_connection
  forward-IsConsistent = elim (Option-cases (Map.get remote d.socket.connections)) [
    | inl e ↦ rw (e, forward_or_new_connection) (new_step _)
    | inr (c, e) ↦ rw (e, forward_or_new_connection) (known_step c e)
  ]

-- The calls that reach a socket: `connect` of the transport layer, and the datagrams received.
pub data Call : Type 0 where
  connects : SocketAddr → Call
  receives : List ℕ → SocketAddr → Call

pub run : Env → List Call → Driver → Driver
run send_ok [] d = d
run send_ok (connects addr ∷ calls) d = run send_ok calls (connect addr d).1
run send_ok (receives bytes remote ∷ calls) d =
    run send_ok calls (forward_or_new_connection send_ok bytes remote d).1

run-IsConsistent :
    (send_ok : Env) (calls : List Call) (d : Driver)
    → IsConsistent d
    → IsConsistent (run send_ok calls d)
unfolding run
run-IsConsistent send_ok [] d h = h
run-IsConsistent send_ok (connects addr ∷ calls) d h =
    run-IsConsistent send_ok calls (connect addr d).1 (connect-IsConsistent d h addr)
run-IsConsistent send_ok (receives bytes remote ∷ calls) d h =
    run-IsConsistent send_ok calls (forward_or_new_connection send_ok bytes remote d).1
      (forward-IsConsistent send_ok bytes remote d h)

-- Whatever is connected and received on a new socket, and whichever sends fail, the datagrams on
-- one channel are all from one remote address.
pub run-Separated :
    (send_ok : Env) (calls : List Call) (addr : LocalAddress) (upd : SocketAddr)
    → Separated (run send_ok calls (bind addr upd)).queued
run-Separated send_ok calls addr upd =
    (run-IsConsistent send_ok calls (bind addr upd) (bind-IsConsistent addr upd)).separated
