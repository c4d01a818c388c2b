-- ===== src/Session.antt =====
-- session.c: the list of sessions that the handlers share.
pub mod Types
pub mod Rounds
pub mod Loop
pub mod World
pub mod Search
pub mod Thread
