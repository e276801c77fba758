-- ===== src/Tui/Keys.antt =====
-- What a key does: the key handlers of ferro-wg-tui-components/src and of ferro-wg-tui/src/lib.rs.
pub mod Event
pub mod Tables
pub mod Focus
pub mod LogsView
pub mod Scroll
pub mod Overlays
pub mod Commands
pub mod Resolve
pub mod Pressed
pub mod Typing
pub mod NoPanic
pub mod Fields
pub mod Mouse
