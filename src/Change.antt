-- ===== src/Change.antt =====
-- network/change/: the stream of changes of the host's network.
pub mod Debounce
pub mod Netlink
