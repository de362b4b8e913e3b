-- ===== src/History.antt =====
-- The transactions of a contract (backend/src/database/transactions.js), the handlers that list and
-- confirm them (backend/src/routes/history.js) and the parameters of pages (backend/src/validation.js).
pub mod Store
pub mod Newest
pub mod Paging
pub mod Walk
pub mod Parameters
pub mod Routes
pub mod Confirm
pub mod Confirmed
pub mod Flags
mod Tests
mod ConfirmTests
