-- ===== src/Tui/State.antt =====
-- ferro-wg-tui-core/src/state.rs: the state of the interface and `dispatch`, the one function that
-- changes it.
pub mod Types
pub mod Simple
pub mod Editing
pub mod Config
pub mod Dispatch
pub mod Keeps
pub mod Stored
pub mod Waiting
pub mod Session
pub mod Bounds
pub mod Marks
pub mod Returns
pub mod Drafts
pub mod Queue
pub mod Reach
pub mod Details
