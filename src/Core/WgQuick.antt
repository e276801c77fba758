-- ===== src/Core/WgQuick.antt =====
-- ferro-wg-core/src/config/wg_quick.rs: reading and writing the files of wg-quick.
pub mod Builder
pub mod Parse
pub mod Export
pub mod Lines
pub mod Files
pub mod Sound
pub mod Takes
pub mod Keys
pub mod Fields
pub mod Lists
pub mod Interface
pub mod Peers
pub mod RoundTrip
