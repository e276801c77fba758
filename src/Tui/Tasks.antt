-- ===== src/Tui/Tasks.antt =====
-- The background tasks of ferro-wg-tui/src/lib.rs, from what they are started with to the messages that
-- they send to the event loop.
pub mod Import
pub mod Saves
pub mod Stored
pub mod Backup
pub mod History
pub mod Answers
pub mod Starts
pub mod Polling
pub mod Unfinished
