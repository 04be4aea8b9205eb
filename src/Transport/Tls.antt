-- ===== src/Transport/Tls.antt =====
-- network/transport/socket.rs: the TLS settings of a socket, and who the peer of a session is. The
-- builders and sessions are those of the crate `openssl`.
pub mod Peers
use uip.Base.{List, Option, none, some, Bool, Result, ok, err, ◌>>=◌, []}
use uip.Data.Identifier.{Identifier, from_x509_certificate}
use uip.Data.Identity.{Identity}
use uip.Data.Openssl.{Openssl}
use uip.Transport.Socket.{accept_connection}
use uip.World.{M, SocketRef, for_each}

pub data VerifyMode : Type 0 where
  peer empty : VerifyMode

-- `SslAcceptor::mozilla_modern(SslMethod::dtls())`, `SslConnector::builder(SslMethod::dtls())` and the
-- methods of their builders. The verify callback is a test of the certificate that the context shows.
pub record Builders (ssl : Openssl) : Type 1 where
  pub AcceptorBuilder : Type 0
  pub Acceptor : Type 0
  pub ConnectorBuilder : Type 0
  pub Connector : Type 0
  pub mozilla_modern : Result AcceptorBuilder ssl.ErrorStack
  pub acceptor_key : ssl.PrivateKey → AcceptorBuilder → Result AcceptorBuilder ssl.ErrorStack
  pub acceptor_certificate : ssl.X509 → AcceptorBuilder → Result AcceptorBuilder ssl.ErrorStack
  pub set_verify_callback :
      VerifyMode → (Option ssl.X509 → Bool) → AcceptorBuilder → AcceptorBuilder
  pub build_acceptor : AcceptorBuilder → Acceptor
  pub builder : Result ConnectorBuilder ssl.ErrorStack
  pub set_verify : VerifyMode → ConnectorBuilder → ConnectorBuilder
  pub connector_certificate : ssl.X509 → ConnectorBuilder → Result ConnectorBuilder ssl.ErrorStack
  pub connector_key : ssl.PrivateKey → ConnectorBuilder → Result ConnectorBuilder ssl.ErrorStack
  pub build_connector : ConnectorBuilder → Connector

-- A panic of an `expect`, or an error that is returned.
pub data TlsError {ℓ} (E : Type ℓ) : Type ℓ where
  panicked : E → TlsError E
  returned : E → TlsError E

abbrev pub or_panic {ℓ κ} : {A : Type ℓ} {E : Type κ} → Result A E → Result A (TlsError E)
or_panic (ok a) = ok a
or_panic (err e) = err (panicked e)

abbrev pub or_return {ℓ κ} : {A : Type ℓ} {E : Type κ} → Result A E → Result A (TlsError E)
or_return (ok a) = ok a
or_return (err e) = err (returned e)

-- `context.current_cert().is_some()`
abbrev pub is_shown {ℓ} : {A : Type ℓ} → Option A → Bool
is_shown none = Bool.false
is_shown (some a) = Bool.true

module _ (ssl : Openssl) (tls : Builders ssl) where
  open tls use {
    Acceptor, Connector, mozilla_modern, acceptor_key, acceptor_certificate, set_verify_callback,
    build_acceptor, builder, set_verify, connector_certificate, connector_key, build_connector,
  }

  unfoldable pub acceptor_for_id : Identity ssl → Result Acceptor (TlsError ssl.ErrorStack)
  acceptor_for_id id = do
    b0 ← or_panic mozilla_modern
    b1 ← or_return (acceptor_key id.key b0)
    b2 ← or_return (acceptor_certificate id.cert b1)
    ok (build_acceptor (set_verify_callback peer is_shown b2))

  unfoldable pub connector_for_id : Identity ssl → Result Connector (TlsError ssl.ErrorStack)
  connector_for_id id = do
    b0 ← or_panic builder
    b1 ← or_panic (connector_certificate id.cert (set_verify empty b0))
    b2 ← or_panic (connector_key id.key b1)
    ok (build_connector b2)

-- Why a peer is not identified.
pub data PeerError {ℓ} (E : Type ℓ) : Type ℓ where
  no_certificate : PeerError E
  no_identifier : E → PeerError E

module _ (ssl : Openssl) where
  -- `certificate` is `connection.ssl().peer_certificate()`.
  unfoldable pub id_from_connection : Option ssl.X509 → Result Identifier (PeerError ssl.ErrorStack)
  id_from_connection none = err no_certificate
  id_from_connection (some x509) = elim (from_x509_certificate ssl x509) [
    | ok id ↦ ok id
    | err e ↦ err (no_identifier e)
  ]

  -- What a round of the accept loop meets: `Ssl::new`, `SslStream::new` or the handshake fails, or there
  -- is a session with the certificate that its peer showed.
  pub data Incoming : Type 0 where
    no_session : Incoming
    session : Option ssl.X509 → Incoming

  unfoldable pub accept_incoming : SocketRef → Incoming → M (Unit {0})
  unfolding id_from_connection
  accept_incoming r no_session = accept_connection r Bool.false none
  accept_incoming r (session certificate) = elim (id_from_connection certificate) [
    | ok id ↦ accept_connection r Bool.true (some id)
    | err e ↦ accept_connection r Bool.true none
  ]

  -- The loop of `spawn_accept_connections_task`, until the channel of incoming connections ends.
  unfoldable pub accept_connections : SocketRef → List Incoming → M (Unit {0})
  unfolding accept_incoming
  accept_connections r incoming = for_each (accept_incoming r) incoming
