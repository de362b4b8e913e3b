-- ===== src/Finality.antt =====
-- Transaction finality: the table (backend/src/database/transaction-finality.js), the trackers
-- (backend/src/transaction-finality.js) and the routes (backend/src/routes/transaction-finality.js).
pub mod Backoff
pub mod Store
pub mod Tracker
pub mod Invariant
pub mod Preserved
pub mod Reached
pub mod Settled
pub mod Window
pub mod Routes
mod Tests
