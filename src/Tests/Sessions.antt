-- ===== src/Tests/Sessions.antt =====
-- Peers that connect, and the datagrams of their connections.
use uip.Base.{◌≡◌, refl, List, [], ◌∷◌, none, some, true, Elem, Elem-head, All}
use uip.Data.Address.{v6}
use uip.Data.Identifier.{identifier_key}
use uip.Io.Socket.{Driver, bind}
use uip.Io.Socket
use uip.Io.Socket.Demux.{Call, connects, receives, run}
use uip.Io.Socket.Demux.Connections.{issued, issued-remote}
use uip.Tests.Data.{carol}
use uip.Tests.Fixtures.{ssl, address, other_address, host_address, connected}
use uip.Transport.Socket.{get_connection}
use uip.Transport.Tls.{Incoming, no_session, session, accept_connections}
use uip.Transport.Tls.Peers.{latest, get_connection-accept_connections}

-- A failed handshake, a peer without a certificate, and two sessions of one peer.
abbrev incoming : List (Incoming ssl)
incoming = no_session ∷ session none ∷ session (some carol.cert) ∷ session (some carol.cert) ∷ []

get_connection-accept_connections_example :
    (get_connection 0 carol.identifier (accept_connections ssl 0 incoming connected).1).0
    ≡ latest ssl carol.identifier 4 incoming (get_connection 0 carol.identifier connected).0
get_connection-accept_connections_example =
    get_connection-accept_connections ssl 0 carol.identifier incoming connected

abbrev calls : List Call
calls =
    connects (v6 address)
    ∷ receives (1 ∷ []) (v6 other_address)
    ∷ receives (2 ∷ []) (v6 address)
    ∷ []

abbrev conn : Socket.Connection
conn = record { remote_addr = v6 address; incoming = 0; local_addr = v6 address }

is_issued : Elem conn (issued (λ c q. true) calls (bind host_address (v6 address)))
unfolding issued Socket.connect bind
is_issued = Elem-head refl

issued-remote_example :
    All
      (λ q. q.channel ≡ 0 → q.remote ≡ v6 address)
      (run (λ c q. true) calls (bind host_address (v6 address))).queued
issued-remote_example = issued-remote (λ c q. true) calls host_address (v6 address) conn is_issued
