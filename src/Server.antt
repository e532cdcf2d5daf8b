-- ===== src/Server.antt =====
-- The server: limits, stores, the database, and the handlers of the sync protocol.
pub mod RateLimiter
pub mod NegotiationStore
pub mod Database
pub mod VersionChunks
pub mod VersionPruner
pub mod Publish
pub mod Commit
pub mod Upload
pub mod Gc
pub mod Objects
pub mod Worker
pub mod WorkerPool
pub mod S3Limiter
pub mod Requests
pub mod Negotiate
pub mod Resume
pub mod Download
pub mod Outbox
