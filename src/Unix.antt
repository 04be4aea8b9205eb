-- ===== src/Unix.antt =====
-- The local half of the daemon: unix/ of the sources.
pub mod Codec
pub mod State
