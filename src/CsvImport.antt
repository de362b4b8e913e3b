-- ===== src/CsvImport.antt =====
-- The import of contributors from a CSV file: backend/src/routes/csv-import.js and
-- backend/src/database/csv-import.js.
pub mod Rows
pub mod Store
pub mod Routes
pub mod Classified
pub mod Refused
mod Tests
