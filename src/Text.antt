-- ===== src/Text.antt =====
-- The operations of Rust's `str` that the code under ferro-wg-core and ferro-wg-tui-core calls,
-- over lists of code points: trimming, splitting, decimal numbers, and ASCII case.
pub mod Trim
pub mod Split
pub mod Number
pub mod Order
