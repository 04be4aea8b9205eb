-- ===== src/Transport.antt =====
-- The transport layer: network/transport/ of the sources.
pub mod Codec
pub mod Connection
pub mod Socket
pub mod Tls
