-- ===== src/Packaging.antt =====
-- The tool that packages the native libraries and their bindings (scripts/package.rs).
pub mod Shell
pub mod Target
pub mod Targets
pub mod Tools
pub mod Libraries
pub mod Archives
pub mod Main
pub mod Keeps
pub mod Contents
pub mod Pair
pub mod Laws
