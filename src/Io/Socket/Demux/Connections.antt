-- ===== src/Io/Socket/Demux/Connections.antt =====
-- What is on the channel that a connection reads.
use uip.Base.{
  ℕ, suc, ◌<◌, ◌≡◌, sym, List, [], ◌∷◌, none, some, All, Elem, not-Elem-nil, Elem-cons, arith,
  Option-cases, Bool-cases, inl, inr,
}
use uip.Base.Map
use uip.Base.Map.{get-insert}
use uip.Data.Address.{SocketAddr, socket_addr_key}
use uip.Discovery.{LocalAddress}
use uip.Io.Socket.{
  Channel, Connection, Driver, Env, bind, connect, forward, forward_or_new_connection,
}
use uip.Io.Socket.Demux.{
  IsConsistent, bind-IsConsistent, connect-IsConsistent, forward-IsConsistent, Call, connects,
  receives, run, All-map,
}

-- The channel of a connection carries only what came from its remote address, and will.
record IsOwn (conn : Connection) (d : Driver) : Type 0 where
  used : conn.incoming < d.fresh
  owner :
      (a : SocketAddr) → Map.get a d.socket.connections ≡ some conn.incoming → a ≡ conn.remote_addr
  past : All (λ q. q.channel ≡ conn.incoming → q.remote ≡ conn.remote_addr) d.queued

put-IsOwn :
    (conn : Connection) (d : Driver) (buf : List ℕ) (remote : SocketAddr) (c : Channel)
    → (c ≡ conn.incoming → remote ≡ conn.remote_addr)
    → IsOwn conn d
    → IsOwn conn (record d {
      socket = record d.socket { connections = Map.insert remote c d.socket.connections };
      queued = record { channel = c; remote = remote; bytes = buf } ∷ d.queued;
    })
put-IsOwn conn d buf remote c h o = record {
  used = o.used;
  owner = λ a e. ground (arith, get-insert remote a c d.socket.connections, o.owner a, h);
  past = (h, o.past);
}

fresh-IsOwn :
    (conn : Connection) (d : Driver) → IsOwn conn d → IsOwn conn (record d { fresh = suc d.fresh })
fresh-IsOwn conn d o =
    let u = o.used in record { used = omega arith; owner = o.owner; past = o.past }

-- A connection with the first unused channel.
new-IsOwn :
    (conn : Connection) (d : Driver)
    → IsConsistent d
    → conn.incoming ≡ d.fresh
    → IsOwn conn (record d { fresh = suc d.fresh })
new-IsOwn conn d h e = record {
  used = omega arith;
  owner = λ a g. absurd (let l = h.below a conn.incoming g in omega arith);
  past = All-map d.queued (λ q l p. absurd (omega arith)) h.used;
}

module _ (send_ok : Env) (buf : List ℕ) (remote : SocketAddr) (d : Driver)
    (h : IsConsistent d) where
  forward-IsOwn :
      (conn : Connection)
      → IsOwn conn d
      → IsOwn conn (forward_or_new_connection send_ok buf remote d).1
  unfolding forward_or_new_connection forward
  forward-IsOwn conn o = elim (Option-cases (Map.get remote d.socket.connections)) [
    | inr (c, e) ↦ elim (Bool-cases (send_ok c d.queued)) [
      | inl t ↦
          rw (e, forward_or_new_connection)
            (rw (t) (put-IsOwn conn d buf remote c (λ z. o.owner remote (rw (sym z) e)) o))
      | inr f ↦ rw (e, forward_or_new_connection) (rw f o)
    ]
    | inl e ↦ elim (Bool-cases (send_ok d.fresh d.queued)) [
      | inl t ↦
          rw (e, forward_or_new_connection)
            (rw (t) (
              put-IsOwn conn (record d { fresh = suc d.fresh }) buf remote d.fresh
                (λ z. absurd (let u = o.used in omega arith)) (fresh-IsOwn conn d o)))
      | inr f ↦ rw (e, forward_or_new_connection) (rw f (fresh-IsOwn conn d o))
    ]
  ]

  forward-new-IsOwn :
      (conn : Connection)
      → (forward_or_new_connection send_ok buf remote d).0 ≡ some conn
      → IsOwn conn (forward_or_new_connection send_ok buf remote d).1
  unfolding forward_or_new_connection forward
  forward-new-IsOwn conn p = elim (Option-cases (Map.get remote d.socket.connections)) [
    | inr (c, e) ↦ absurd (ground arith)
    | inl e ↦ elim (Bool-cases (send_ok d.fresh d.queued)) [
      | inl t ↦
          let p' = rw (e, forward_or_new_connection) at p in
          let p'' = rw t at p' in
          let i : d.fresh ≡ conn.incoming = cc in
          let r : remote ≡ conn.remote_addr = cc in
          rw (e, forward_or_new_connection)
            (rw (t) (
              put-IsOwn conn (record d { fresh = suc d.fresh }) buf remote d.fresh (λ z. r)
                (new-IsOwn conn d h (sym i))))
      | inr f ↦ absurd (ground arith)
    ]
  ]

-- The connections that a socket gives out, to its callers and to those that accept.
unfoldable pub issued : Env → List Call → Driver → List Connection
issued send_ok [] d = []
issued send_ok (connects addr ∷ calls) d =
    let (conn, d') = connect addr d in conn ∷ issued send_ok calls d'
issued send_ok (receives bytes remote ∷ calls) d =
    let (conn, d') = forward_or_new_connection send_ok bytes remote d in
    elim conn [ none ↦ issued send_ok calls d' | some c ↦ c ∷ issued send_ok calls d' ]

connect-IsOwn :
    (conn : Connection) (addr : SocketAddr) (d : Driver)
    → IsOwn conn d
    → IsOwn conn (connect addr d).1
unfolding connect
connect-IsOwn conn addr d o =
    let u = o.used in
    record {
      used = omega arith;
      owner = λ a e. ground (arith, get-insert addr a d.fresh d.socket.connections, o.owner a);
      past = o.past;
    }

connect-new-IsOwn :
    (addr : SocketAddr) (d : Driver) → IsConsistent d → IsOwn (connect addr d).0 (connect addr d).1
unfolding connect
connect-new-IsOwn addr d h = record {
  used = omega arith;
  owner = λ a e. ground (arith, get-insert addr a d.fresh d.socket.connections, h.below a d.fresh);
  past = All-map d.queued (λ q l p. absurd (omega arith)) h.used;
}

run-IsOwn :
    (send_ok : Env) (calls : List Call) (conn : Connection) (d : Driver)
    → IsConsistent d
    → IsOwn conn d
    → IsOwn conn (run send_ok calls d)
unfolding run
run-IsOwn send_ok [] conn d h o = o
run-IsOwn send_ok (connects addr ∷ calls) conn d h o =
    run-IsOwn send_ok calls conn (connect addr d).1 (connect-IsConsistent d h addr)
      (connect-IsOwn conn addr d o)
run-IsOwn send_ok (receives bytes remote ∷ calls) conn d h o =
    run-IsOwn send_ok calls conn (forward_or_new_connection send_ok bytes remote d).1
      (forward-IsConsistent send_ok bytes remote d h)
      (forward-IsOwn send_ok bytes remote d h conn o)

issued-IsOwn :
    (send_ok : Env) (calls : List Call) (conn : Connection) (d : Driver)
    → IsConsistent d
    → Elem conn (issued send_ok calls d)
    → IsOwn conn (run send_ok calls d)
unfolding issued run
issued-IsOwn send_ok [] conn d h m = absurd (not-Elem-nil m)
issued-IsOwn send_ok (connects addr ∷ calls) conn d h m = elim (Elem-cons m) [
  | inl p ↦
      run-IsOwn send_ok calls conn (connect addr d).1 (connect-IsConsistent d h addr)
        (rw p (connect-new-IsOwn addr d h))
  | inr e ↦ issued-IsOwn send_ok calls conn (connect addr d).1 (connect-IsConsistent d h addr) e
]
issued-IsOwn send_ok (receives bytes remote ∷ calls) conn d h m =
    let d' = (forward_or_new_connection send_ok bytes remote d).1 in
    let h' = forward-IsConsistent send_ok bytes remote d h in
    elim (Option-cases (forward_or_new_connection send_ok bytes remote d).0) [
      | inl e ↦ issued-IsOwn send_ok calls conn d' h' (rw (e, issued) at m)
      | inr (c, e) ↦ elim (Elem-cons (rw (e, issued) at m)) [
        | inl p ↦
            run-IsOwn send_ok calls conn d' h'
              (rw p (forward-new-IsOwn send_ok bytes remote d h c e))
        | inr l ↦ issued-IsOwn send_ok calls conn d' h' l
      ]
    ]

-- Whatever is connected and received on a new socket, and whichever sends fail, the channel of every
-- connection that the socket gave out carries only datagrams from that connection's remote address.
pub issued-remote :
    (send_ok : Env) (calls : List Call) (addr : LocalAddress) (upd : SocketAddr) (conn : Connection)
    → Elem conn (issued send_ok calls (bind addr upd))
    → All
        (λ q. q.channel ≡ conn.incoming → q.remote ≡ conn.remote_addr)
        (run send_ok calls (bind addr upd)).queued
issued-remote send_ok calls addr upd conn m =
    (issued-IsOwn send_ok calls conn (bind addr upd) (bind-IsConsistent addr upd) m).past
