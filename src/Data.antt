-- ===== src/Data.antt =====
-- data/ of the sources: identifiers, identities, peers and the peer information base.
pub mod Openssl
pub mod Identifier
pub mod Identity
pub mod Address
pub mod Peer
pub mod PeerInformationBase
