-- ===== src/Client/Maps.antt =====
-- Calls on maps (src/client/map_apis.rs): reads, and writes that are paid for.
pub mod Reads
pub mod Writes
pub mod Laws
