-- ===== src/Payroll.antt =====
-- The payroll engine: `logic/payroll`, its repositories, and the older payroll run.
pub mod Errors
pub mod Rounding
pub mod Schemas
pub mod Rules
pub mod Primitives
pub mod Engine
pub mod Service
pub mod Sql
mod Tests
pub mod Runs
