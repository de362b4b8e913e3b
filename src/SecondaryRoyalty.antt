-- ===== src/SecondaryRoyalty.antt =====
-- Royalties on resales: their tables (backend/src/database/secondary-royalties.js) and the handlers that
-- record a sale and distribute what is pending (backend/src/routes/secondary-royalty.js).
pub mod Store
pub mod Routes
pub mod Sale
pub mod Total
pub mod Distributed
mod Tests
