-- ===== src/Chat/History/Access.antt =====
-- What one session sees of the turns that are appended.
