-- ===== src/Tests.antt =====
-- The theorems at concrete inputs.
mod Fixtures
mod Transport
mod Network
mod Data
mod Io
mod Local
mod Programs
mod Files
mod Links
mod Sessions
mod Interleaved
mod Locks
mod Hosts
mod Commands
mod Announcements
