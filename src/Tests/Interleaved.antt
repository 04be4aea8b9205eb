-- ===== src/Tests/Interleaved.antt =====
-- A peer that connects and a frame that is sent while sockets are opened.
use uip.Base.{◌≡◌, refl, [], ◌∷◌, map, true, some}
use uip.Base.Map
use uip.Data.Address.{v6, socket_addr_v6_key}
use uip.Network.Interleaved.{
  System, found, acted, opened, Reach, finds, opens, dials, shakes, accepts, initial, next,
}
use uip.Network.Interleaved.Current.{IsInitial, interleaved-get}
use uip.Network.Sockets.{is_current, with_port, close_stale_sockets, stale_addresses, new_addresses}
use uip.Network.Sockets.Opened.{is_some}
use uip.Tests.Fixtures.{env, pack, bob, alice, address, host_address, started}
use uip.Tests.Network.{started-IsStart, env-AllBind}
use uip.Transport.Socket.{accept_connection, io_connect, from_tls_stream}
use uip.World.{for_each}

abbrev s₀ : System
s₀ = record { world = started; addresses = []; pending = []; discovered = [] }

s₀-IsInitial : IsInitial env pack s₀
s₀-IsInitial = record {
  world = started-IsStart;
  addresses = refl;
  pending = refl;
  discovered = refl;
}

-- The handler of the change has the socket still to open when a connection is dialled.
abbrev changing : System
changing = record (found (host_address ∷ []) s₀) { discovered = host_address ∷ [] }

abbrev dialled : System
dialled = acted (io_connect 5 (v6 address)) changing

abbrev bound : System
bound = opened env (with_port 7 host_address) [] dialled

abbrev connected : System
connected = acted (accept_connection 0 true (some bob)) (acted (from_tls_stream alice) bound)

left : dialled.pending ≡ with_port 7 host_address ∷ []
unfolding found close_stale_sockets stale_addresses new_addresses for_each Map.get
left = refl

connected-Reach : Reach env pack s₀ connected
connected-Reach =
    next
      (next
        (next (next (next initial (finds (host_address ∷ []) refl)) (dials 5 (v6 address)))
          (opens (with_port 7 host_address) [] left))
        (shakes alice))
      (accepts 0 true (some bob))

interleaved-get_example :
    is_some (Map.get address connected.world.network.sockets)
    ≡ is_current (map (with_port connected.world.network.port) connected.discovered) address
unfolding opened
interleaved-get_example =
    interleaved-get env pack s₀ connected address s₀-IsInitial connected-Reach env-AllBind refl
