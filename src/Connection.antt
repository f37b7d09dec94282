-- ===== src/Connection.antt =====
-- The connection to the elders (src/connection_manager.rs).
pub mod Link
pub mod Election
pub mod Query
pub mod Join
