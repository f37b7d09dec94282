-- ===== src/TestUtils.antt =====
-- The helpers that the tests of the library share (src/utils/test_utils).
pub mod Sync
pub mod Balance
