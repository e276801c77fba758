-- ===== src/Core/Daemon.antt =====
-- ferro-wg-core/src/daemon.rs: the daemon's log buffer, its commands and its loop.
pub mod Buffer
pub mod Recent
pub mod Layer
pub mod Command
pub mod Serve
pub mod Refines
pub mod Stops
pub mod Answers
