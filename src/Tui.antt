-- ===== src/Tui.antt =====
-- The crate ferro-wg-tui-core: the state of the terminal interface and the actions on it.
pub mod App
pub mod Theme
pub mod Benchmark
pub mod ConfigEdit
pub mod Action
pub mod State
pub mod Error
pub mod Keys
pub mod Tasks
pub mod EventLoop
pub mod ConnectionBar
