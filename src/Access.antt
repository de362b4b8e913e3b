-- ===== src/Access.antt =====
-- Role-based access control: backend/src/middleware/rbac.js.
pub mod Roles
pub mod Grants
mod Tests
