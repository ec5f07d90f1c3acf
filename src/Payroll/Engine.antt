-- ===== src/Payroll/Engine.antt =====
-- logic/payroll/engine: the run of a calculation plan.
pub mod Audit
pub mod Executor
