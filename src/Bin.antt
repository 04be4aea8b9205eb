-- ===== src/Bin.antt =====
-- bin/: the daemon and the command line client.
pub mod Clap
pub mod Uipd
pub mod Uipcat
