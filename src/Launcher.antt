-- ===== src/Launcher.antt =====
-- p4/p4launcher/p4l_server.c: the daemon that keeps a pool of P4 runtimes for the OVS sessions.
pub mod State
pub mod Layout
pub mod Runtimes
pub mod Invariant
pub mod Sessions
pub mod Commands
pub mod Setup
pub mod Promise
pub mod Shared
pub mod Tests
mod Examples
