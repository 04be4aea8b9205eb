-- ===== src/Network/Interleaved/Current.antt =====
-- However the handlers interleave, the open sockets follow the addresses of the host.
use uip.Base.{map, sym, ap, ◌∙◌, ◌≡◌, [], arith, Option-cases, Bool-cases, inl, inr}
use uip.Base.Map
use uip.Base.Map.{Map, get-insert, eq?}
use uip.Data.Address.{SocketAddrV6, socket_addr_v6_key}
use uip.Data.Identifier.{identifier_key}
use uip.Network.Interleaved.{System, Reach, initial, next}
use uip.Network.Reachable.{IsStart, start-IsValid, start-empty}
use uip.Network.Sockets.{is_current, with_port}
use uip.Network.Sockets.Opened.{AllBind, is_some}
use uip.Protocol.{MessagePack}
use uip.World.{Env}
use uip.Network.Interleaved.Kept.{IsKept, Step-IsKept}

module _ (env : Env) (pack : MessagePack) where
  -- No socket is open, and none is to be opened.
  pub record IsInitial (s : System) : Type 0 where
    pub world : IsStart s.world
    pub addresses : s.addresses ≡ []
    pub pending : s.pending ≡ []
    pub discovered : s.discovered ≡ []

  initial-IsKept : (s : System) → IsInitial s → IsKept env pack s
  unfolding is_current
  initial-IsKept s h = record {
    valid = start-IsValid s.world h.world;
    last = h.addresses ∙ ap (map (with_port s.world.network.port)) (sym h.discovered);
    ports = rw h.pending tt;
    only = λ a r e. absurd (start-empty s.world h.world a r e);
    wanted = λ a t. absurd (let t' = rw h.pending at t in cc);
    opening = λ b a t. absurd (let t' = rw h.addresses at t in cc);
  }

  Reach-IsKept : {s t : System} → Reach env pack s t → IsKept env pack s → IsKept env pack t
  Reach-IsKept initial k = k
  Reach-IsKept (next r st) k = Step-IsKept env pack st (Reach-IsKept r k)

  current :
      (s t : System) (a : SocketAddrV6)
      → IsInitial s
      → Reach env pack s t
      → AllBind env
      → t.pending ≡ []
      → is_some (Map.get a t.world.network.sockets) ≡ is_current t.addresses a
  unfolding is_current
  current s t a h r b e =
      let k = Reach-IsKept r (initial-IsKept s h) in
      elim (Bool-cases (is_current t.addresses a)) [
        | inl c ↦ elim (k.opening b a c) [
          | inl (q, g) ↦ rw (g, c)
          | inr p ↦ absurd (let p' = rw e at p in cc)
        ]
        | inr f ↦ elim (Option-cases (Map.get a t.world.network.sockets)) [
          | inl g ↦ rw (g, f)
          | inr (q, g) ↦ absurd (ground (arith, k.only a q g, f))
        ]
      ]

  -- However the handlers interleave and the hash maps are ordered, if binding and the TLS acceptor
  -- never fail, then whenever
  -- `open_new_sockets` has no socket left to open there is a socket at exactly the addresses that
  -- discovery found last, given the configured port.
  pub interleaved-get :
      (s t : System) (a : SocketAddrV6)
      → IsInitial s
      → Reach env pack s t
      → AllBind env
      → t.pending ≡ []
      → is_some (Map.get a t.world.network.sockets)
        ≡ is_current (map (with_port t.world.network.port) t.discovered) a
  interleaved-get s t a h r b e =
      let k = Reach-IsKept r (initial-IsKept s h) in
      current s t a h r b e ∙ ap (λ ls. is_current ls a) k.last
