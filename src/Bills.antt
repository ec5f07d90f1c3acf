-- ===== src/Bills.antt =====
-- The ingestion of purchase bills: `logic/bills`, less the HTTP application.
pub mod Rules
pub mod Models
pub mod TaxId
pub mod Qr
pub mod Extract
pub mod Matching
pub mod Executor
pub mod Fields
pub mod Service
mod Tests
