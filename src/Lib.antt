-- ===== src/Lib.antt =====
-- Verification of the backend of Stellar Royalty Splitter, an Express server that prepares royalty
-- distributions on Stellar and keeps their records in SQLite.
--
-- The parts that are modelled, each in a module with child modules for its definitions and proofs:
--
-- - Idempotency (backend/src/idempotency.js): the cache of responses and the middleware. `arrive` is
--   a request up to the handler, `respond` what the handler sends, through the overridden
--   `res.status` and `res.json`.
-- - Signature (backend/src/verify-signature.js): the nonce cache, the header checks, the verification
--   and the middleware. Key parsing, SHA-256 and Ed25519 are parameters (`Crypto`).
-- - Rpc (backend/src/rpc-retry.js): `is_transient_error` in Rpc/Errors, `get_backoff_delay` in
--   Rpc/Backoff, `with_retry` in Rpc/Retry; an operation is the sequence of the outcomes of its calls.
-- - Webhooks: the table (backend/src/database/webhooks.js) in Webhooks/Store, the first delivery
--   (backend/src/webhook-delivery.js) in Webhooks/Delivery, and a run of the retry job
--   (backend/src/jobs/retry-failed-webhooks.js) in Webhooks/RetryJob.
-- - Finality: the table (backend/src/database/transaction-finality.js) in Finality/Store, the
--   trackers and polling loops (backend/src/transaction-finality.js) in Finality/Tracker, and the
--   handlers (backend/src/routes/transaction-finality.js) in Finality/Routes.
-- - Referrals (backend/src/database/referrals.js): the queries in Referrals/Store, links and
--   registrations in Referrals/Register, activations and bonuses in Referrals/Activate, the dashboard
--   in Referrals/Dashboard.
-- - Access (backend/src/middleware/rbac.js): roles, keys and guards in Access/Roles.
-- - Disputes: the tables (backend/src/database/disputes.js) in Disputes/Store and the handlers that
--   change a ticket (backend/src/routes/disputes.js) in Disputes/Routes.
-- - Dedup (backend/src/middleware/dedup.js): the middleware for requests in flight, with its timers.
-- - Schedule: the calculator of the next run (backend/src/schedule-calculator.js), by day numbers in
--   Schedule/Days and by calendar months in Schedule/Months.
-- - History: the tables of transactions and payouts (backend/src/database/transactions.js) in
--   History/Store, the parameters of a page (backend/src/validation.js) in History/Parameters, and the
--   handlers that list and confirm (backend/src/routes/history.js) in History/Routes and
--   History/Confirm. The poll of Horizon splits a confirmation in two, with other requests in between.
--   The archive is an argument there.
-- - Audit (backend/src/database/audit.js): the log, which refuses an action that is not in the list of
--   backend/src/validation.js.
-- - PaymentSchedules: the table (backend/src/database/payment-schedules.js) in PaymentSchedules/Store, a
--   run of the job (backend/src/jobs/payment-schedule-job.js) in PaymentSchedules/Job, the handlers
--   (backend/src/routes/payment-schedules.js) in PaymentSchedules/Routes. The job joins Schedule, History
--   and Audit: `World` holds the tables of all three.
-- - SecondaryRoyalty: royalties on resales (backend/src/database/secondary-royalties.js) in
--   SecondaryRoyalty/Store, and the handlers that record and distribute them
--   (backend/src/routes/secondary-royalty.js), with History and Audit, in SecondaryRoyalty/Routes.
-- - Cache: the read cache (backend/src/cache.js), with its refreshes as calls of a fetch function that
--   are answered by later events.
-- - CsvImport: the import of contributors from a CSV file (backend/src/routes/csv-import.js,
--   backend/src/database/csv-import.js): the file and its checks in CsvImport/Rows, the tables in
--   CsvImport/Store, the handlers, which call Audit, in CsvImport/Routes.
-- - PaymentHolds: holds on payments (backend/src/database/payment-holds.js), and the handlers that
--   change one (backend/src/routes/payment-holds.js), which call Audit, in PaymentHolds/Routes.
-- - RoyaltyConfig (frontend/src/utils/royaltyConfig.ts): what a file holds in RoyaltyConfig/Json, the
--   loops over the rows in RoyaltyConfig/Rows, import and export in RoyaltyConfig/File. JavaScript's
--   conversions between numbers and texts are arguments.
--
-- Prelude holds what they share: Boolean tests and keys (Prelude/Tests), list functions
-- (Prelude/Lists), `ORDER BY` (Prelude/Sorting), JavaScript's `Map` as an association list in insertion order (Prelude/Map), and
-- ASCII text as code points (Prelude/Text) with SQLite's order and `LIKE` (Prelude/TextOrder).
--
-- How the program is read. State is passed explicitly: a module-level `Map` or a table is a value that
-- an operation takes and returns. A table is the list of its rows in the order of insertion, or a map
-- if the statements go by a UNIQUE column. Times are milliseconds, as natural numbers, or
-- texts where the source compares texts of different formats; the clock is an
-- argument, or a field that an event moves. Random numbers are arguments: a fraction `draw / grain` for
-- `Math.random`, a text for a generated code. Products of doubles are exact here, and `Math.round` is
-- written out. Where the source awaits, the model stops: an answer from outside is an argument
-- (Rpc, Webhooks), or an event of a step function (Finality), or the handler is split in two, with other
-- requests in between (History/Confirm, and the distribution of SecondaryRoyalty/Routes). A run of the
-- webhooks' retries comes alone, and by its steps; Webhooks/Overlap joins the two. A run of the payment
-- schedules, and the recording of a sale, are taken alone, though they await too. Errors are values.
--
-- Loops. A client that follows the cursors of a listing (`walk` in History/Walk) goes by fuel, of which
-- one page more than there are rows is enough. The retry loop of Rpc and the insert loop of Referrals go by the attempts that are left,
-- which are as many as the source's bound allows, so that no fuel is guessed. A polling loop of
-- Finality takes one event at a time; `Reaches`, in Finality/Reached, is the relation of the worlds that events lead to.
--
-- Not modelled: the SQLite engine, HTTP and Express themselves, log lines, metrics and traces, timers
-- (their callbacks are), the rest of the backend's tables and routes, the frontend and the Soroban
-- contract. The cleanup job that deletes old rows of the finality table is not among the events of
-- Finality. The schema that the code relies on is taken as its comments state it where no migration
-- creates it (the tables of the referrals and disputes, and the retry columns of the webhooks).
pub mod Access
pub mod Audit
pub mod Cache
pub mod CsvImport
pub mod Dedup
pub mod Disputes
pub mod Finality
pub mod History
pub mod Idempotency
pub mod PaymentHolds
pub mod PaymentSchedules
pub mod Prelude
pub mod Referrals
pub mod RoyaltyConfig
pub mod Rpc
pub mod Schedule
pub mod SecondaryRoyalty
pub mod Signature
pub mod Webhooks
