-- ===== src/Dedup.antt =====
-- Request deduplication: backend/src/middleware/dedup.js.
pub mod Requests
pub mod Single
pub mod Attended
pub mod Late
mod Tests
