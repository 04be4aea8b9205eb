-- ===== src/Network/Pieces.antt =====
-- What the actions of the network half are composed of: sends on connections, and the two ends of opening
-- a connection. A relation that holds of these holds of every action that does not change the network
-- state itself.
pub mod Handlers
use uip.Base.{ℕ, ◌≡◌, refl, List, [], ◌∷◌, Result, ok, err, Option-cases, Bool-cases, inl, inr}
use uip.Data.Address.{SocketAddr, SocketAddrV6, v6}
use uip.Data.Identifier.{Identifier}
use uip.Data.Peer.{Peer}
use uip.Protocol.{Message, MessagePack, serialize_to_msgpck}
use uip.Transport.Codec.{Frame}
use uip.Transport.Connection
use uip.Transport.Socket
use uip.Transport.Connection.{
  send, send_frame, send_data_frame, send_control_message, send_peer_info, send_peer_info_request,
}
use uip.Transport.Socket.{io_connect, from_tls_stream, handshake, open_connection}
use uip.World.{World, M, Env, Connection, SocketRef, for_each}

-- The relation holds from before to after an action.
abbrev pub Does {ℓ} : {A : Type ℓ} → (World → World → Type 0) → M A → Type 0
Does R m = (w : World) → R w (m w).1

pub record IsClosed (env : Env) (R : World → World → Type 0) : Type 0 where
  pub reflexive : (w : World) → R w w
  pub transitive : (u v w : World) → R u v → R v w → R u w
  pub send : (conn : Connection) (f : Frame) → Does R (Connection.send env conn f)
  pub io_connect : (r : SocketRef) (a : SocketAddr) → Does R (Socket.io_connect r a)
  pub from_tls_stream : (id : Identifier) → Does R (Socket.from_tls_stream id)

module _ {env : Env} {R : World → World → Type 0} (c : IsClosed env R) where
  pub Does-for_each :
      {A : Type 0} (body : A → M (Unit {0})) (xs : List A)
      → ((x : A) → Does R (body x))
      → Does R (for_each body xs)
  unfolding for_each
  Does-for_each body [] q w = c.reflexive w
  Does-for_each body (x ∷ xs) q w =
      c.transitive w (body x w).1 (for_each body xs (body x w).1).1 (q x w)
        (Does-for_each body xs q (body x w).1)

  pub Does-send_data_frame :
      (conn : Connection) (s d : ℕ) (payload : List ℕ)
      → Does R (send_data_frame env conn s d payload)
  unfolding send_data_frame
  Does-send_data_frame conn s d payload w = c.send conn _ w

  module _ (pack : MessagePack) where
    Does-send_control_message :
        (conn : Connection) (m : Message) → Does R (send_control_message env pack conn m)
    unfolding send_control_message
    Does-send_control_message conn m w = go (serialize_to_msgpck pack m []) refl
      where
        go :
            (r : Result (List ℕ) (Unit {0}))
            → serialize_to_msgpck pack m [] ≡ r
            → R w (send_control_message env pack conn m w).1
        go (ok buf) e = rw (e, send_control_message) (c.send conn _ w)
        go (err _) e = rw (e, send_control_message) (c.reflexive w)

    pub Does-send_peer_info :
        (conn : Connection) (p : Peer) → Does R (send_peer_info env pack conn p)
    unfolding send_peer_info
    Does-send_peer_info conn p w = Does-send_control_message conn _ w

    pub Does-send_peer_info_request :
        (conn : Connection) (id : Identifier) → Does R (send_peer_info_request env pack conn id)
    unfolding send_peer_info_request
    Does-send_peer_info_request conn id w = Does-send_control_message conn _ w

  Does-handshake : (id : Identifier) (a : SocketAddrV6) → Does R (handshake env id a)
  unfolding handshake
  Does-handshake id a w = elim (Option-cases (env.ssl_stream w.trace)) [
    | inr (e, p) ↦ rw (p, handshake) (c.reflexive w)
    | inl p ↦ elim (Option-cases (env.handshake (v6 a) w.trace)) [
      | inl q ↦ rw (p, q, handshake) (c.reflexive w)
      | inr (k, q) ↦ rw (p, q, handshake) (c.from_tls_stream id w)
    ]
  ]

  pub Does-open_connection :
      (r : SocketRef) (id : Identifier) (a : SocketAddrV6) → Does R (open_connection env r id a)
  unfolding open_connection
  Does-open_connection r id a w = elim (Bool-cases (env.configure w.trace)) [
    | inr f ↦ rw f (c.reflexive w)
    | inl t ↦ elim (Option-cases (env.into_ssl id w.trace)) [
      | inr (e, p) ↦ rw (t, p, open_connection) (c.reflexive w)
      | inl p ↦
          rw (t, p, open_connection)
            (c.transitive w (io_connect r (v6 a) w).1 _ (c.io_connect r (v6 a) w)
              (Does-handshake id a (io_connect r (v6 a) w).1))
    ]
  ]
