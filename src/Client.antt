-- ===== src/Client.antt =====
-- The client (src/client): what it holds, its messages, and its calls by subject.
pub mod State
pub mod Money
pub mod Maps
pub mod Sequences
pub mod Blobs
pub mod Writes
pub mod Create
pub mod MapInfo
