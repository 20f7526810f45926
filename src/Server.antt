-- ===== src/Server.antt =====
-- server/: the HTTP side of the program.
pub mod Auth
pub mod Filters
pub mod Tools
