-- ===== src/External.antt =====
-- What the client takes from other crates: their types, the protocol enums of `safe_nd` by the
-- variants that the client names, and the functions that it calls.
pub mod Types
pub mod Protocol
pub mod Blobs
pub mod Api
pub mod Cipher
pub mod Sockets
pub mod Logs
pub mod Files
pub mod Host
