-- ===== src/Rsync.antt =====
-- src/lib/rsync: block signatures of an old file, the delta of a new file against them, and the
-- patch that rebuilds the new file.
-- The digest of SHA-256 is the argument `digest`; asynchronous calls are plain calls, since no state
-- is shared across their waits.
pub mod Signatures
pub mod Delta
pub mod Patch
pub mod Matching
pub mod Signed
pub mod Rebuild
pub mod Window
pub mod RoundTrip
