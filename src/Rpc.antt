-- ===== src/Rpc.antt =====
-- backend/src/rpc-retry.js: which RPC errors are transient, how long to wait, and the retry loop.
pub mod Errors
pub mod Backoff
pub mod Retry
pub mod Laws
mod Tests
