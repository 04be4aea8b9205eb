-- ===== src/Network.antt =====
-- network/state.rs: the network half of the daemon.
pub mod Pieces
pub mod Quiet
pub mod Sockets
pub mod Peers
pub mod Invariant
pub mod Reachable
pub mod Interleaved
pub mod Guards
