-- ===== src/Program.antt =====
-- The crate ferro-wg: the command line program and its subcommands.
pub mod Cli
pub mod Commands
pub mod Status
pub mod Import
pub mod Imported
pub mod Logs
