-- ===== src/Chat.antt =====
-- The chat: its stores, the transcript that is sent, a turn, and the SQL that is let through (`logic/chat`).
pub mod Transcript
pub mod History
pub mod Reports
pub mod Compress
pub mod Turn
pub mod Sql
mod Tests
