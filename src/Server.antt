-- ===== src/Server.antt =====
-- The set-up of the database server.
pub mod Manager
pub mod Ready
mod Examples
