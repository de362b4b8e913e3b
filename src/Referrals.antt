-- ===== src/Referrals.antt =====
-- The referral system: backend/src/database/referrals.js. The tables' UNIQUE columns are those that
-- the source relies on: the wallet and the code of a link, and the referred address of a referral.
pub mod Store
pub mod Register
pub mod Activate
pub mod Dashboard
pub mod Unique
pub mod Bonuses
pub mod Rows
pub mod Balance
mod Tests
