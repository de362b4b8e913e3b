-- ===== src/Schedule.antt =====
-- The calculator of the next run: backend/src/schedule-calculator.js.
pub mod Days
pub mod Months
pub mod Next
mod Tests
