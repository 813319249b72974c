-- ===== src/Board.antt =====
-- core/sw/server.c: what the server on the board makes of a command, and what it answers.
pub mod Number
pub mod Context
pub mod Dispatch
pub mod Calls
pub mod Guards
pub mod Answer
