-- ===== src/Tests.antt =====
-- Concrete runs of the theorems.
pub mod Engine
pub mod Formats
pub mod Services
pub mod Handlers
pub mod Queues
pub mod Transfers
pub mod Pushes
