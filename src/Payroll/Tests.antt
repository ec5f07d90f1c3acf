-- ===== src/Payroll/Tests.antt =====
-- The engine on a small rule stack.
mod Stack
mod Company
mod Rules
mod Plans
mod Runs
mod Periods
