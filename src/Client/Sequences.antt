-- ===== src/Client/Sequences.antt =====
-- Calls on sequences (src/client/sequence_apis.rs): the cached replicas, reads, and writes.
pub mod Writes
pub mod Replicas
pub mod Sent
pub mod Edits
pub mod Laws
pub mod Clones
