-- ===== src/DevCare.antt =====
-- Changes of registered entities: `logic/devcare`, less its HTTP application and its prompts.
pub mod Rules
pub mod Validator
pub mod Writes
pub mod Forms
pub mod Pending
pub mod Service
mod Tests
