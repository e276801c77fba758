-- ===== src/Core/Tunnel.antt =====
-- ferro-wg-core/src/tunnel: what the daemon does to the system for its connections.
pub mod Route
pub mod Socket
pub mod Dns
pub mod Manager
pub mod Target
pub mod Opening
pub mod Updown
pub mod Status
pub mod View
pub mod Coming
pub mod Going
pub mod Listing
pub mod PacketLoop
pub mod PacketRules
pub mod Restores
pub mod Everything
