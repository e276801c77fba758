-- ===== src/Core.antt =====
-- The crate ferro-wg-core: keys, configuration, its wg-quick form, statistics, messages and logs.
pub mod Error
pub mod Key
pub mod Config
pub mod Stats
pub mod Backend
pub mod Os
pub mod Disk
pub mod Ipc
pub mod Message
pub mod Tunnel
pub mod Daemon
pub mod Client
pub mod Toml
pub mod Logs
pub mod WgQuick
