-- ===== src/Examples.antt =====
-- A small network for tests, and the runs on it that the theorems are tried on.
mod Toy
mod Connection
mod Client
mod Clones
mod Entries
mod Blobs
mod Logging
mod Sync
mod Packaging
mod Appenders
