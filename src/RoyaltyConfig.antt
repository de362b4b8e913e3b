-- ===== src/RoyaltyConfig.antt =====
-- Royalty configurations as files: frontend/src/utils/royaltyConfig.ts.
pub mod Json
pub mod Rows
pub mod File
pub mod Checked
pub mod RoundTrip
pub mod Accepted
mod Tests
