-- ===== src/Webhooks.antt =====
-- Distribute-completion webhooks: the table (backend/src/database/webhooks.js), the first delivery
-- (backend/src/webhook-delivery.js) and the job that retries (backend/src/jobs/retry-failed-webhooks.js).
pub mod Store
pub mod Delivery
pub mod RetryJob
pub mod Progress
pub mod Overlap
pub mod Exhaustion
pub mod Attempts
pub mod Registration
mod Tests
