-- ===== src/Bin/Uipd.antt =====
-- bin/uipd.rs and configuration.rs: the daemon wires the two halves together. `toml` is a parameter.
pub mod Wiring
pub mod Control
pub mod Unreachable
pub mod Command
pub mod Files
use uip.Base.{ℕ, List, [], ◌∷◌, ◌++◌, Result, ok, err, ◌>>=◌, ◌==◌, if◌then◌else◌, ◌≡◌}
use uip.Data.Identifier.{Identifier, to_string}
use uip.Data.Openssl.{Openssl}
use uip.Data.Identity.{Identity, generate, clone}
use uip.Data.PeerInformationBase.{PeerInformationBase}
use uip.Data.PeerInformationBase
use uip.Network.Sockets
use uip.Network.Peers
use uip.Protocol.{MessagePack}
use uip.Unix.State
use uip.World
use uip.World.{NetworkState}

module _ (ssl : Openssl) where
  pub record Configuration : Type 0 where
    pub port : ℕ
    pub ctl_socket : List ℕ
    pub relays : List Identifier
    pub id : Identity ssl
    pub pib : PeerInformationBase

  -- `if config.port == 0u16 { config.port = 0xfe11 }`
  unfoldable pub with_default_port : Configuration → Configuration
  with_default_port c = if c.port == 0 then record c { port = 0xfe11 } else c

  unfoldable pub network_state : Configuration → NetworkState
  network_state c = Sockets.new c.id.identifier c.pib c.relays c.port

  unfoldable pub unix_state : Configuration → State.UnixState
  unix_state c = State.new c.ctl_socket

  -- The configuration that is written when the daemon is stopped.
  unfoldable pub final_configuration :
      Configuration → NetworkState → State.UnixState → Configuration
  final_configuration c network unix = record {
    id = c.id;
    pib = network.pib;
    relays = network.relays;
    port = network.port;
    ctl_socket = unix.ctl_socket;
  }

  -- `/run/user/1000/{}.sock`; an error is the panic of `expect`, also that of `id.clone()`.
  unfoldable pub new_configuration : List ℕ → List ℕ → Result Configuration ssl.ErrorStack
  new_configuration prefix suffix = do
    id ← generate ssl
    copy ← clone ssl id
    ok (record {
      id = copy;
      pib = PeerInformationBase.new;
      relays = [];
      port = 0;
      ctl_socket = prefix ++ to_string id.identifier ++ suffix;
    })

-- The two channels between the halves: each task takes one message after the other.
pub record Message : Type 0 where
  pub host_id : Identifier
  pub src_port : ℕ
  pub dst_port : ℕ
  pub payload : List ℕ

unfoldable pub to_local : State.Env → List Message → State.World → State.World
to_local env [] w = w
to_local env (m ∷ ms) w =
    to_local env ms (State.deliver_frame env m.host_id m.src_port m.dst_port m.payload w)

unfoldable pub to_network : World.Env → List Message → World.World → World.World
to_network env [] w = w
to_network env (m ∷ ms) w =
    to_network env ms (Peers.send_frame env m.host_id m.src_port m.dst_port m.payload w).1
