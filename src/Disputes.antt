-- ===== src/Disputes.antt =====
-- The disputes: the tables (backend/src/database/disputes.js) and the handlers that change them
-- (backend/src/routes/disputes.js).
pub mod Store
pub mod Routes
pub mod Comments
mod Tests
