-- ===== src/Network/Peers/Relays.antt =====
-- Connecting to relays and asking them for peers.
use uip.Base.{◌≡◌}
use uip.Data.Identifier.{identifier_key}
use uip.Protocol.{MessagePack}
use uip.Network.Pieces.Handlers.{Does-connect_to_relays}
use uip.Network.Quiet.{Quiet-IsClosed}
use uip.Network.Peers.{connect_to_relays}
use uip.World.{World, Env, SocketRef}

module _ (env : Env) (pack : MessagePack) where
  -- Connecting to the relays registers no connection, also where it succeeds: every socket has the
  -- same connections afterwards, so that the same relays are connected to again the next time.
  pub connect_to_relays-connections :
      (r : SocketRef) (w : World)
      → ((connect_to_relays env pack w).1.store r).connections ≡ (w.store r).connections
  connect_to_relays-connections r w =
      (Does-connect_to_relays (Quiet-IsClosed env) pack w).connections r
