-- ===== src/Logging/Builders.antt =====
-- The builders of the four appenders (src/utils/logging/async_log.rs).
pub mod Console
pub mod File
pub mod Server
pub mod WebSock
