-- ===== src/Cli.antt =====
-- The command line client.
pub mod Sync
pub mod Journal
pub mod Uploads
pub mod Delta
pub mod Push
