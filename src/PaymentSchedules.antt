-- ===== src/PaymentSchedules.antt =====
-- Schedules of payments: their table (backend/src/database/payment-schedules.js), the job that runs the
-- due ones (backend/src/jobs/payment-schedule-job.js), and the handlers
-- (backend/src/routes/payment-schedules.js).
pub mod Store
pub mod Job
pub mod Stuck
pub mod Routes
mod Tests
