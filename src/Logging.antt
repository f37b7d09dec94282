-- ===== src/Logging.antt =====
-- The log of the library (src/utils/logging): what is written where, and how.
pub mod Builders
pub mod WebSocket
pub mod Loggers
pub mod Appenders
pub mod Fields
pub mod Creators
pub mod Init
pub mod Requests
