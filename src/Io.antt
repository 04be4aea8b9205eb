-- ===== src/Io.antt =====
-- The IO layer: network/io/ of the sources, one UDP socket shared by many connections.
pub mod Socket
pub mod Connection
